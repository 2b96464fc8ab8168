-- ===== src/Examples/Channels.antt =====
-- A broadcast channel that is a list of texts, and the text of a message.
use lmax_clob.Common.{
  ℕ, zero, suc, ◌+◌, ◌-◌, ◌≤◌, ◌≡◌, refl, inl, inr, String, Option, none, some, List, [], ◌∷◌, ◌++◌,
  length, get_elem?, arith, ltb, if◌then◌else◌, Bool-cases,
}
use mathlib.Core.Option
use lmax_clob.Api.Broadcast.{RecvResult, message, Receives, Tokio, Texts}
use lmax_clob.Examples.Demo.{demo}

pub record Texted : Type 0 where
  pub texts : List String
  pub kept : ℕ

abbrev next_text : Option String → ℕ → Option (RecvResult × ℕ)
next_text none n = none
next_text (some m) n = some (message m, suc n)

abbrev pub recv_text : Texted → ℕ → Option (RecvResult × ℕ)
recv_text t n =
    if ltb (n + t.kept) (length t.texts)
    then some (RecvResult.lagged (length t.texts - t.kept - n), length t.texts - t.kept)
    else next_text (get_elem? t.texts n) n

get_elem?-none : (xs : List String) (n : ℕ) → get_elem? xs n ≡ none → length xs ≤ n
get_elem?-none [] n e = omega arith
get_elem?-none (x ∷ xs) zero e = absurd cc
get_elem?-none (x ∷ xs) (suc n) e = omega (arith, get_elem?-none xs n e)

next_text-Receives :
    (t : Texted) (n : ℕ) (o : Option String)
    → get_elem? t.texts n ≡ o
    → Receives t.texts t.kept n (Option.map (λ x. (x.0, x.1)) (next_text o n))
next_text-Receives t n none e = get_elem?-none t.texts n e
next_text-Receives t n (some m) e = (e, refl)

pub recv_text_lem :
    (t : Texted) (n : ℕ) → Receives t.texts t.kept n (Option.map (λ x. (x.0, x.1)) (recv_text t n))
recv_text_lem t n = elim (Bool-cases (ltb (n + t.kept) (length t.texts))) [
  | inl behind ↦ rw behind (ground arith)
  | inr near ↦ rw near (next_text-Receives t n (get_elem? t.texts n) refl)
]

instance abbrev pub text_channel : Tokio
text_channel = record {
  Channel = Texted;
  Receiver = ℕ;
  channel = λ n. record { texts = []; kept = n };
  send = λ t m. record t { texts = t.texts ++ m ∷ [] };
  subscribe = λ t. (t, length t.texts);
  receiver_count = λ t. 1;
  recv = recv_text;
  history = λ t. t.texts;
  capacity = λ t. t.kept;
  seen = λ n. n;
  channel-history = λ n. refl;
  channel-capacity = λ n. omega arith;
  send-history = λ t m. refl;
  send-capacity = λ t m. refl;
  subscribe-history = λ t. refl;
  subscribe-capacity = λ t. refl;
  subscribe-seen = λ t. refl;
  recv_lem = recv_text_lem;
}

abbrev pub plain_texts : Texts
plain_texts = record {
  uuid_to_string = λ n. "id";
  num_to_string = λ n. "1.0";
  object_to_string = λ fields. "fill";
}

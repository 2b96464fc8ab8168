-- ===== src/Examples/Services.antt =====
-- The API server and the snapshot codec at work.
use lmax_clob.Common.{◌≡◌, refl, sym, Option, none, some}
use lmax_clob.Engine.Types.{Result, ok, err, ok-injective}
use lmax_clob.Engine.Snapshot.{BookSnapshot, Postcard}
use lmax_clob.Api.Leader.{Lease, LeasePatch, LeaseServer, merge_patch}
use lmax_clob.Examples.Demo.{demo}

-- Bytes are the snapshot itself.
instance abbrev pub plain_postcard : Postcard
plain_postcard = record {
  Bytes = BookSnapshot;
  to_allocvec = λ s. ok s;
  from_bytes = λ b. ok b;
  from_bytes_lem = λ s b e. sym e;
}

-- The error of a call.
pub data Outage : Type 0 where
  unreachable : Outage

abbrev pub create_absent : Option Lease → Lease → Result Outage (Option Lease)
create_absent none l = ok (some l)
create_absent (some old) l = err unreachable

abbrev pub patch_present : Option Lease → LeasePatch → Result Outage (Option Lease)
patch_present none p = err unreachable
patch_present (some old) p = ok (some (merge_patch p old))

pub create_absent_lem :
    (s s' : Option Lease) (l : Lease) → create_absent s l ≡ ok s' → (s ≡ none) × (s' ≡ some l)
create_absent_lem none s' l e = (refl, sym (ok-injective (some l) s' e))
create_absent_lem (some old) s' l e = absurd cc

pub patch_present_lem :
    (s s' : Option Lease) (p : LeasePatch)
    → patch_present s p ≡ ok s'
    → (old : Lease) × (s ≡ some old) × (s' ≡ some (merge_patch p old))
patch_present_lem none s' p e = absurd cc
patch_present_lem (some old) s' p e =
    (old, refl, sym (ok-injective (some (merge_patch p old)) s' e))

-- A server that always answers.
instance abbrev pub ready_server : LeaseServer
ready_server = record {
  State = Option Lease;
  KubeError = Outage;
  stored = λ s. s;
  get_opt = λ s. ok s;
  create = create_absent;
  patch = patch_present;
  get_lem = λ s l e. sym (ok-injective s l e);
  create_lem = create_absent_lem;
  patch_lem = patch_present_lem;
}

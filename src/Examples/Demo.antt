-- ===== src/Examples/Demo.antt =====
-- The crates at work: the number `n` stands for the decimal `n - 100`, ids are numbers, and the
-- slab is that of Slots.
use lmax_clob.Common.{
  ◌<◌, ℕ, ◌+◌, ◌-◌, ◌≤◌, ◌≡◌, ◌⊎◌, refl, Option, List, [], arith, compare, ◌==◌, ==_iff, leb,
  if◌then◌else◌,
}
use lmax_clob.Crates.{Crates}
use lmax_clob.Examples.Slots.{
  slot_values_complete, slot_values, slot_values-held, slot, fill_slot, write_slot, clear_slot,
  slot-fill_slot, fill_slot_vacant, slot-write_slot, slot-clear_slot,
}

abbrev pub least : ℕ → ℕ → ℕ
least a b = if leb a b then a else b

pub least-cases : (a b : ℕ) → ((least a b ≡ a) × (a ≤ b)) ⊎ ((least a b ≡ b) × (b ≤ a))
least-cases a b = ground arith

pub difference-exact :
    (a b : ℕ)
    → 100 ≤ a
    → 100 ≤ b
    → 100 ≤ b
    → b ≤ a
    → (100 ≤ a + 100 - b) × (a + 100 - b + b ≡ a + 100)
difference-exact a b ha hb h k = omega arith

pub sum-exact :
    (a b l : ℕ)
    → 100 ≤ a
    → 100 ≤ b
    → 100 ≤ l
    → 100 ≤ a
    → 100 ≤ b
    → a + b ≤ l + 100
    → (100 ≤ a + b - 100) × (a + b - 100 + 100 ≡ a + b)
sum-exact a b l ha hb hl pa pb h = omega arith

pub raised_less : (m n : ℕ) → m < n → m + 100 < n + 100
raised_less m n h = omega arith

pub raised_grid : (n : ℕ) → 100 ≤ n + 100
raised_grid n = omega arith

pub zero_grid : ◌≤◌ 100 100
zero_grid = omega arith

instance abbrev pub demo : Crates
demo = record {
  Num = ℕ;
  zero = 100;
  max_value = 1000;
  cmp = compare;
  add = λ a b. a + b - 100;
  sub = λ a b. a + 100 - b;
  min = least;
  position = λ a. a;
  cmp_lem = λ a b. refl;
  min_cases = least-cases;
  OnGrid = λ a. 100 ≤ a;
  zero-OnGrid = zero_grid;
  sub_exact = difference-exact;
  add_exact = sum-exact;
  whole = λ n. n + 100;
  whole_zero = refl;
  whole_less = λ m n h k. raised_less m n h;
  whole-OnGrid = λ n h. raised_grid n;
  PostcardError = Unit;
  Uuid = ℕ;
  uuid_eq = ◌==◌;
  uuid_eq_iff = ==_iff;
  Slab = λ A. List (Option A);
  slab_new = [];
  slab_get = slot;
  slab_insert = fill_slot;
  slab_set = write_slot;
  slab_remove = clear_slot;
  get-new = λ k. refl;
  get-insert = slot-fill_slot;
  insert_vacant = fill_slot_vacant;
  get-set = slot-write_slot;
  get-remove = slot-clear_slot;
  slab_values = slot_values;
  values-held = slot_values-held;
  values-complete = slot_values_complete;
}

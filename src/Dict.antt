-- ===== src/Dict.antt =====
-- dict.c: the hash table. The hash and the comparison of keys are the caller's function pointers. A bucket
-- is the list of its entries, and the buckets are a function from the index.
pub mod Lookup
mod Tests
use mtrace.Base.{
  ℕ, zero, suc, ◌+◌, ◌%◌, ◌==◌, if◌then◌else◌, Bool, true, false, Option, none, some, List, [], ◌∷◌,
  Outcome, ok, fault, ◌>>=◌,
}

pub record DictEntry {ℓ} (V : Type ℓ) : Type ℓ where
  pub key : ℕ
  pub value : V

pub record Dict {ℓ} (V : Type ℓ) : Type ℓ where
  pub size : ℕ
  pub key2hash : ℕ → ℕ
  pub key_cmp : ℕ → ℕ → ℕ
  pub buckets : ℕ → List (DictEntry V)

module _ {ℓ} {V : Type ℓ} where
  abbrev pub with_bucket : Dict V → ℕ → List (DictEntry V) → Dict V
  with_bucket d hash b = record d { buckets = λ i. if hash == i then b else d.buckets i }

  unfoldable pub dict_init : ℕ → (ℕ → ℕ) → (ℕ → ℕ → ℕ) → Dict V
  dict_init size key2hash key_cmp = record {
    size = size;
    key2hash = key2hash;
    key_cmp = key_cmp;
    buckets = λ i. [];
  }

  -- `key2hash(key) % d->size`. A table without buckets stops with a division by zero.
  unfoldable pub bucket_of : Dict V → ℕ → Outcome ℕ
  bucket_of d key = elim (d.size == 0) [ true ↦ fault | false ↦ ok (d.key2hash key % d.size) ]

  -- The loop of `_dict_find_entry` over one bucket: the entry, and the bucket without it.
  abbrev pub past :
      DictEntry V
      → Option (DictEntry V × List (DictEntry V))
      → Option (DictEntry V × List (DictEntry V))
  past e none = none
  past e (some (f, rest)) = some (f, e ∷ rest)

  unfoldable pub find_in :
      (ℕ → ℕ → ℕ) → ℕ → List (DictEntry V) → Option (DictEntry V × List (DictEntry V))
  find_in key_cmp key [] = none
  find_in key_cmp key (e ∷ es) = elim (key_cmp key e.key == 0) [
    | true ↦ some (e, es)
    | false ↦ past e (find_in key_cmp key es)
  ]

  unfoldable pub dict_find_in : Dict V → ℕ → ℕ → Option (DictEntry V × List (DictEntry V))
  dict_find_in d key hash = find_in d.key_cmp key (d.buckets hash)

  -- The Boolean is true for the result 0, and false for -1. `given` is whether `malloc` gives the entry of
  -- a new key; where it does not, the entry is written through a null pointer.
  unfoldable pub dict_add : Bool → Dict V → ℕ → V → Outcome (Bool × Dict V)
  dict_add given d key value = do
    hash ← bucket_of d key
    elim (dict_find_in d key hash) [
      | some hit ↦ ok (false, d)
      | none ↦ elim given [
        | false ↦ fault
        | true ↦
            ok (true, with_bucket d hash (record { key = key; value = value } ∷ d.buckets hash))
      ]
    ]

  unfoldable pub dict_remove_entry : Dict V → ℕ → Outcome (Option V × Dict V)
  dict_remove_entry d key = do
    hash ← bucket_of d key
    elim (dict_find_in d key hash) [
      | none ↦ ok (none, d)
      | some (e, rest) ↦ ok (some e.value, with_bucket d hash rest)
    ]

  unfoldable pub dict_find_entry : Dict V → ℕ → Outcome (Option V)
  dict_find_entry d key = do
    hash ← bucket_of d key
    elim (dict_find_in d key hash) [ none ↦ ok none | some (e, rest) ↦ ok (some e.value) ]

  -- `dict_apply_to_all`. The function may change a state, and stops the walk with a result other than 0.
  module _ {κ} {S : Type κ} (func : ℕ → V → S → Bool × S) where
    unfoldable pub apply_bucket : List (DictEntry V) → S → Bool × S
    apply_bucket [] s = (true, s)
    apply_bucket (e ∷ es) s =
        let (go, t) = func e.key e.value s in
        elim go [ false ↦ (false, t) | true ↦ apply_bucket es t ]

    -- The buckets from `i`, of which `n` are left.
    unfoldable pub apply_from : (ℕ → List (DictEntry V)) → ℕ → ℕ → S → Bool × S
    apply_from buckets i zero s = (true, s)
    apply_from buckets i (suc n) s =
        let (go, t) = apply_bucket (buckets i) s in
        elim go [ false ↦ (false, t) | true ↦ apply_from buckets (suc i) n t ]

    unfoldable pub dict_apply_to_all : Dict V → S → Bool × S
    dict_apply_to_all d s = apply_from d.buckets 0 d.size s

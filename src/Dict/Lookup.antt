-- ===== src/Dict/Lookup.antt =====
-- dict.c: lookups after an insertion and a removal.
use mtrace.Base.{
  ℕ, ◌%◌, ◌≡◌, refl, ◌≢◌, ap, sym, ◌∙◌, inl, inr, ◌==◌, if◌then◌else◌, Bool, true, false, ◌&&◌,
  Option, none, some, List, ◌∷◌, arith, Bool-cases, Option-cases, Outcome, ok, fault, Ends,
}
use mtrace.Dict.{
  DictEntry, Dict, with_bucket, bucket_of, find_in, past, dict_find_in, dict_add, dict_find_entry,
}

-- What the table asks of its function pointers: equal keys compare as 0, an equivalence that the
-- hash respects.
pub record Lawful {V : Type 0} (d : Dict V) : Type 0 where
  pub nonempty : d.size ≢ 0
  pub same : (k : ℕ) → d.key_cmp k k ≡ 0
  pub flip : (k l : ℕ) → d.key_cmp k l ≡ 0 → d.key_cmp l k ≡ 0
  pub trans : (k l m : ℕ) → d.key_cmp k l ≡ 0 → d.key_cmp l m ≡ 0 → d.key_cmp k m ≡ 0
  pub hash : (k l : ℕ) → d.key_cmp k l ≡ 0 → d.key2hash k ≡ d.key2hash l

true_is_false : true ≡ false → ⊥
true_is_false e = cc

module _ {V : Type 0} where
  -- What a search of one bucket gives a lookup.
  found : Option (DictEntry V × List (DictEntry V)) → Option V
  found none = none
  found (some (e, rest)) = some e.value

  found-past :
      (e : DictEntry V) (o : Option (DictEntry V × List (DictEntry V))) → found (past e o) ≡ found o
  unfolding found
  found-past e none = refl
  found-past e (some h) = refl

  bucket_is : (d : Dict V) → Lawful d → (k : ℕ) → bucket_of d k ≡ ok (d.key2hash k % d.size)
  unfolding bucket_of
  bucket_is d w k = elim (Bool-cases (d.size == 0)) [
    | inl e ↦ absurd (w.nonempty (ground arith))
    | inr e ↦ rw (e, bucket_of) refl
  ]

  find_is :
      (d : Dict V)
      → Lawful d
      → (k : ℕ)
      → dict_find_entry d k ≡ ok (found (find_in d.key_cmp k (d.buckets (d.key2hash k % d.size))))
  unfolding dict_find_entry dict_find_in found
  find_is d w k =
      rw (bucket_is d w k) (by_hit (find_in d.key_cmp k (d.buckets (d.key2hash k % d.size))))
    where
      by_hit :
          (o : Option (DictEntry V × List (DictEntry V)))
          → elim o [ none ↦ ok none | some (e, rest) ↦ ok (some e.value) ] ≡ ok (found o)
      by_hit none = refl
      by_hit (some h) = refl

  abbrev pub is_absent : Outcome (Option V) → Bool
  is_absent (ok none) = true
  is_absent _ = false

  -- What a lookup finds once the value was added for a key that the table did not have.
  pub record Added (d : Dict V) (k : ℕ) (v : V) (r : Bool × Dict V) : Type 0 where
    pub new : r.0 ≡ is_absent (dict_find_entry d k)
    pub lookup :
        (l : ℕ)
        → dict_find_entry r.1 l
          ≡ (if r.0 && (d.key_cmp l k == 0) then ok (some v) else dict_find_entry d l)

  absent_if_missed :
      (d : Dict V)
      → Lawful d
      → (k : ℕ) → find_in d.key_cmp k (d.buckets (d.key2hash k % d.size)) ≡ none
      → is_absent (dict_find_entry d k) ≡ true
  unfolding found
  absent_if_missed d w k miss = rw (find_is d w k) (rw miss refl)

  with_bucket-Lawful :
      (d : Dict V) (h : ℕ) (b : List (DictEntry V)) → Lawful d → Lawful (with_bucket d h b)
  with_bucket-Lawful d h b w = record {
    nonempty = w.nonempty;
    same = w.same;
    flip = w.flip;
    trans = w.trans;
    hash = w.hash;
  }

  abbrev home : Dict V → ℕ → ℕ
  home d k = d.key2hash k % d.size

  -- A lookup in a table with another bucket.
  find_with :
      (d : Dict V)
      → Lawful d
      → (h : ℕ) (b : List (DictEntry V)) (l : ℕ)
      → dict_find_entry (with_bucket d h b) l
        ≡ (if h == home d l then ok (found (find_in d.key_cmp l b)) else dict_find_entry d l)
  find_with d w h b l =
      rw (find_is (with_bucket d h b) (with_bucket-Lawful d h b w) l, find_is d w l) (ground arith)

  find_with_same :
      (d : Dict V)
      → Lawful d
      → (k l : ℕ) (b : List (DictEntry V)) → (d.key_cmp l k == 0) ≡ true
      → dict_find_entry (with_bucket d (home d k) b) l ≡ ok (found (find_in d.key_cmp l b))
  find_with_same d w k l b eq = rw (find_with d w (home d k) b l) (
      let same : home d k ≡ home d l =
        ap (λ x. x % d.size) (w.hash k l (w.flip l k (ground arith))) in
      ground arith)

  abbrev entry : ℕ → V → DictEntry V
  entry k v = record { key = k; value = v }

  add_new :
      (d : Dict V) (w : Lawful d) (k : ℕ) (v : V)
      → find_in d.key_cmp k (d.buckets (home d k)) ≡ none
      → Added d k v (true, with_bucket d (home d k) (entry k v ∷ d.buckets (home d k)))
  unfolding find_in found
  add_new d w k v miss = record {
    new = rw (find_is d w k) (rw miss refl);
    lookup = λ l. elim (Bool-cases (d.key_cmp l k == 0)) [
      | inl eq ↦
          rw (find_with_same d w k l (entry k v ∷ d.buckets (home d k)) eq) (rw (eq, find_in) refl)
      | inr ne ↦ rw (find_with d w (home d k) (entry k v ∷ d.buckets (home d k)) l) (
          rw (ne, find_in)
            (rw (found-past (entry k v) (find_in d.key_cmp l (d.buckets (home d k))), find_is d w l)
              (ground arith)))
    ];
  }

  -- A value that is added under a new key is found under every equal key, and no other lookup changes.
  -- Where the key is taken, nothing changes. The addition always returns where `malloc` gives the entry
  -- or the key is taken.
  pub dict_add-Added :
      (given : Bool) (d : Dict V) (w : Lawful d) (k : ℕ) (v : V)
      → (given ≡ false → is_absent (dict_find_entry d k) ≡ false)
      → Ends ⊥ (Added d k v) (dict_add given d k v)
  unfolding dict_add dict_find_in
  dict_add-Added given d w k v served =
      rw (bucket_is d w k, Ends)
        (elim (Option-cases (find_in d.key_cmp k (d.buckets (home d k)))) [
          | inl miss ↦ rw (miss, Ends) (by_malloc given served miss)
          | inr (hit, is) ↦
              rw (is, Ends)
                (record {
                  new = rw (find_is d w k) (rw is (unfold found in refl));
                  lookup = λ l. refl;
                })
        ])
    where
      by_malloc :
          (given : Bool)
          → (given ≡ false → is_absent (dict_find_entry d k) ≡ false)
          → find_in d.key_cmp k (d.buckets (home d k)) ≡ none
          → Ends ⊥ (Added d k v) (elim given [
            | false ↦ fault
            | true ↦ ok (true, with_bucket d (home d k) (entry k v ∷ d.buckets (home d k)))
          ])
      by_malloc true served miss = add_new d w k v miss
      by_malloc false served miss =
          let taken = served refl in
          let fresh : is_absent (dict_find_entry d k) ≡ true = absent_if_missed d w k miss in
          absurd (true_is_false (sym fresh ∙ taken))

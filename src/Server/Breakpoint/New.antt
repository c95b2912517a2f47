-- ===== src/Server/Breakpoint/New.antt =====
-- breakpoint.c: breakpoints that are made.
use mtrace.Base.{
  ℕ, ◌+◌, ◌%◌, ◌==◌, ◌≡◌, refl, ◌≢◌, sym, subst, ap, ◌∙◌, inl, inr, Bool, true, false, Option, none,
  some, List, map, [], ◌∷◌, length, arith, Bool-cases, Option-cases, ok, ◌>>=◌, Ends,
}
use mtrace.Process.State.{update}
use mtrace.Dict.{Dict, dict_add, bucket_of, dict_find_in, with_bucket}
use mtrace.Server.ProcMemory.{ProcBytes}
use mtrace.Server.Breakpoint.{
  Breakpoint, BpType, Leader, Target, table_of, store_bp, new_breakpoint, breakpoint_new_ext,
}
use mtrace.Server.Breakpoint.Text.{
  Spaced, IsBp, IsText, same_or_other, changed-here, changed-there, is_b1,
}

pub bucket-ok : (d : Dict ℕ) (key : ℕ) → d.size ≢ 0 → (i : ℕ) × (bucket_of d key ≡ ok i)
unfolding bucket_of
bucket-ok d key size = elim (Bool-cases (d.size == 0)) [
  | inl z ↦ absurd (size (ground arith))
  | inr z ↦ (d.key2hash key % d.size, rw (z, bucket_of) refl)
]

module _ (target : Target) (text : ProcBytes) (s : Leader) (inv : IsText target text s) (addr : ℕ)
    (libsym : Option ℕ) (type : BpType) (ext : ℕ) where
  abbrev pub made : Breakpoint
  made = new_breakpoint target addr libsym type ext

  abbrev pub with_made : Dict ℕ → Leader
  with_made d = record s {
    heap = update s.heap s.fresh (some made);
    fresh = s.fresh + 1;
    breakpoints = some d;
  }

  -- The breakpoints in use keep off the new one.
  abbrev pub KeepOff : Type 0
  KeepOff =
      (q : ℕ) (c : Breakpoint) → s.heap q ≡ some c → c.deleted ≡ false → Spaced target text made c

  zeros : List ℕ → List ℕ
  zeros = map (λ b. 0)

  length-zeros : (bs : List ℕ) → length (zeros bs) ≡ length bs
  unfolding zeros
  length-zeros [] = refl
  length-zeros (b ∷ bs) = omega (arith, length-zeros bs)

  made-IsBp : IsBp target text made
  unfolding zeros
  made-IsBp = record {
    same = refl;
    hw = refl;
    size = length-zeros target.break_value;
    orig = λ e. absurd (never e);
    gone = λ e. refl;
  }
    where
      never : false ≡ true → ⊥
      never e = cc

  turn-Spaced : (b c : Breakpoint) → Spaced target text b c → Spaced target text c b
  turn-Spaced b c (inl h) = inr h
  turn-Spaced b c (inr h) = inl h

  -- A new breakpoint is off, so the memory stays the text under the breakpoints.
  pub with_made-IsText :
      (d : Dict ℕ) → s.heap s.fresh ≡ none → KeepOff → IsText target text (with_made d)
  unfolding store_bp
  with_made-IsText d empty off =
      let here = changed-here target text s s.fresh made made s.memory s.stopped in
      let there = changed-there target text s s.fresh made made s.memory s.stopped in
      let is = is_b1 target text s s.fresh made made s.memory s.stopped in
      let place = same_or_other target text s s.fresh made made s.memory s.stopped in
      record {
        each = λ q c h. elim (place q) [
          | inl e ↦ subst (IsBp target text) (sym (is c q e h)) made-IsBp
          | inr ne ↦ inv.each q c (sym (there q ne) ∙ h)
        ];
        clean = λ x k.
            inv.clean x
              (λ q c h on. k q c (there q (λ e. absurd (let z = ap s.heap e in cc)) ∙ h) on);
        apart = λ q r b c ne h k u v. elim (place q) [
          | inl e ↦ elim (place r) [
            | inl f ↦ absurd (ne (sym e ∙ f))
            | inr f ↦
                subst (λ z. Spaced target text z c) (sym (is b q e h))
                  (off r c (sym (there r f) ∙ k) v)
          ]
          | inr e ↦ elim (place r) [
            | inl f ↦
                subst (λ z. Spaced target text b z) (sym (is c r f k))
                  (turn-Spaced made b (off q b (sym (there q e) ∙ h) u))
            | inr f ↦ inv.apart q r b c ne (sym (there q e) ∙ h) (sym (there r f) ∙ k) u v
          ]
        ];
      }

  -- What an insertion of a fresh breakpoint gives: the pointer that leads to it, unless there is none.
  abbrev pub IsMade : Option ℕ × Leader → Type 0
  IsMade (none, t) = IsText target text t
  IsMade (some p, t) = (t.heap p ≡ some made) × IsText target text t

  module _ (d : Dict ℕ) (tabled : s.breakpoints ≡ some d) (size : d.size ≢ 0)
      (empty : s.heap s.fresh ≡ none) (off : KeepOff) where
    made-runs :
        {e : Dict ℕ}
        → dict_add true d addr s.fresh ≡ ok (true, e)
        → breakpoint_new_ext target true true s addr libsym type ext
          ≡ ok (some s.fresh, with_made e)
    unfolding breakpoint_new_ext table_of
    made-runs added = simp (tabled, added, breakpoint_new_ext, table_of, ◌>>=◌)

    kept-runs :
        {e : Dict ℕ}
        → dict_add true d addr s.fresh ≡ ok (false, e)
        → breakpoint_new_ext target true true s addr libsym type ext ≡ ok (none, s)
    unfolding breakpoint_new_ext table_of
    kept-runs added = simp (tabled, added, breakpoint_new_ext, table_of, ◌>>=◌)

    pub breakpoint_new_ext-IsMade :
        (given : Bool) → Ends ⊥ IsMade (breakpoint_new_ext target given true s addr libsym type ext)
    unfolding breakpoint_new_ext dict_add store_bp
    breakpoint_new_ext-IsMade false = inv
    breakpoint_new_ext-IsMade true =
        let i = bucket-ok d addr size in
        elim (Option-cases (dict_find_in d addr i.0)) [
          | inl e ↦
              let put =
                with_bucket d i.0 (record { key = addr; value = s.fresh } ∷ d.buckets i.0) in
              subst (Ends ⊥ IsMade) (sym (made-runs (simp (i.1, e, dict_add, ◌>>=◌) refl))) (
                changed-here target text s s.fresh made made s.memory s.stopped,
                with_made-IsText put empty off,
              )
          | inr (hit, e) ↦
              subst (Ends ⊥ IsMade) (sym (kept-runs {e = d} (simp (i.1, e, dict_add, ◌>>=◌) refl)))
                inv
        ]

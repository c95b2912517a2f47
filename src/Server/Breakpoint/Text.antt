-- ===== src/Server/Breakpoint/Text.antt =====
-- breakpoint.c: the text of a process under its breakpoints.
use mtrace.Base.{
  ℕ, ltb, ◌+◌, ◌≤◌, ◌<◌, ◌==◌, ◌≡◌, refl, ◌≢◌, sym, subst, ap, ◌∙◌, ◌⊎◌, inl, inr, Bool, true,
  false, some, length, arith, Bool-cases, ==_iff, ==_refl,
}
use mtrace.Server.ProcMemory.{ProcBytes, bytes}
use mtrace.Server.ProcMemory.Bytes.{bytes-cong}
use mtrace.Server.Breakpoint.{Breakpoint, Leader, Target, store_bp}

-- `text` is the program without break instructions.
module _ (target : Target) (text : ProcBytes) where
  abbrev pub span : ℕ
  span = length target.break_value

  -- The break instruction of a breakpoint does not stand at `x`.
  abbrev pub Clear : Breakpoint → ℕ → Type 0
  Clear b x = (x < b.addr) ⊎ (b.addr + span ≤ x)

  abbrev pub Spaced : Breakpoint → Breakpoint → Type 0
  Spaced b c = (b.addr + span ≤ c.addr) ⊎ (c.addr + span ≤ b.addr)

  -- A breakpoint that is in the text has the bytes that stood there.
  pub record IsBp (b : Breakpoint) : Type 0 where
    pub same : b.enabled ≡ b.sw
    pub hw : b.hw ≡ false
    pub size : length b.orig_value ≡ span
    pub orig : b.sw ≡ true → b.orig_value ≡ bytes text b.addr span
    pub gone : b.deleted ≡ true → b.sw ≡ false

  -- The memory is the text but for the breakpoints that are in it, and those in use do not overlap.
  pub record IsText (s : Leader) : Type 0 where
    pub each : (p : ℕ) (b : Breakpoint) → s.heap p ≡ some b → IsBp b
    pub clean :
        (x : ℕ)
        → ((p : ℕ) (b : Breakpoint) → s.heap p ≡ some b → b.sw ≡ true → Clear b x)
        → s.memory x ≡ text x
    pub apart :
        (p q : ℕ) (b c : Breakpoint)
        → p ≢ q
        → s.heap p ≡ some b
        → s.heap q ≡ some c
        → b.deleted ≡ false
        → c.deleted ≡ false
        → Spaced b c

  module _ (s : Leader) (p : ℕ) (b b1 : Breakpoint) (mem : ProcBytes) (st : Bool) where
    -- A breakpoint that is changed, with the memory it leaves.
    abbrev pub changed : Leader
    changed = store_bp (record s { memory = mem; stopped = st }) p (some b1)

    pub changed-here : changed.heap p ≡ some b1
    unfolding store_bp
    changed-here = rw (==_refl p) refl

    pub changed-there : (q : ℕ) → p ≢ q → changed.heap q ≡ s.heap q
    unfolding store_bp
    changed-there q ne = elim (Bool-cases (p == q)) [
      | inl e ↦ absurd (ne ((==_iff p q).0 e))
      | inr e ↦ rw (e) refl
    ]

    pub same_or_other : (q : ℕ) → (p ≡ q) ⊎ (p ≢ q)
    same_or_other q = elim (Bool-cases (p == q)) [
      | inl e ↦ inl ((==_iff p q).0 e)
      | inr e ↦ inr (λ d. ground arith)
    ]

    pub is_b1 : (c : Breakpoint) (q : ℕ) → p ≡ q → changed.heap q ≡ some c → c ≡ b1
    is_b1 c q e h = let k = changed-here in let l = ap changed.heap e in cc

    module _ (inv : IsText s) (here : s.heap p ≡ some b) (now : IsBp b1) (addr : b1.addr ≡ b.addr)
        (used : b1.deleted ≡ false → b.deleted ≡ false)
        (clean : (x : ℕ)
          → (b1.sw ≡ true → Clear b1 x)
          → ((q : ℕ) (c : Breakpoint) → p ≢ q → s.heap q ≡ some c → c.sw ≡ true → Clear c x)
          → mem x ≡ text x) where
      -- What stands in the changed heap stood there at the same address.
      was :
          (q : ℕ) (c : Breakpoint)
          → changed.heap q ≡ some c
          → (o : Breakpoint) × (s.heap q ≡ some o)
            × (o.addr ≡ c.addr)
            × (c.deleted ≡ false → o.deleted ≡ false)
      was q c h = elim (same_or_other q) [
        | inl e ↦
            let k = is_b1 c q e h in
            (
              b,
              sym (ap s.heap e) ∙ here,
              sym addr ∙ ap (λ d. d.addr) (sym k),
              λ u. used (ap (λ d. d.deleted) (sym k) ∙ u),
            )
        | inr ne ↦ (c, sym (changed-there q ne) ∙ h, refl, λ u. u)
      ]

      moved_apart :
          (o r c d : Breakpoint) → Spaced o r → o.addr ≡ c.addr → r.addr ≡ d.addr → Spaced c d
      moved_apart o r c d (inl h) e f = inl (omega arith)
      moved_apart o r c d (inr h) e f = inr (omega arith)

      pub changed-IsText : IsText changed
      unfolding store_bp
      changed-IsText = record {
        each = λ q c h. elim (same_or_other q) [
          | inl e ↦ subst IsBp (sym (is_b1 c q e h)) now
          | inr ne ↦ inv.each q c (sym (changed-there q ne) ∙ h)
        ];
        clean = λ x k.
            clean x (λ on. k p b1 changed-here on)
              (λ q c ne h on. k q c (changed-there q ne ∙ h) on);
        apart = λ q r c d ne h k u v.
            let o = was q c h in
            let w = was r d k in
            moved_apart o.0 w.0 c d (inv.apart q r o.0 w.0 ne o.1 w.1 (o.3 u) (w.3 v)) o.2 w.2;
      }

  module _ (s : Leader) (p : ℕ) (b : Breakpoint) (inv : IsText s) (here : s.heap p ≡ some b) where
    -- The memory seen from one breakpoint and the others.
    pub split_clean :
        (x : ℕ)
        → (b.sw ≡ true → Clear b x)
        → ((q : ℕ) (c : Breakpoint) → p ≢ q → s.heap q ≡ some c → c.sw ≡ true → Clear c x)
        → s.memory x ≡ text x
    split_clean x f g = inv.clean x (λ q c h on. elim (same_or_other s p b b s.memory true q) [
      | inl e ↦
          let k : c ≡ b = let l = ap s.heap e in cc in
          subst (λ d. Clear d x) (sym k) (f (ap (λ d. d.sw) (sym k) ∙ on))
      | inr ne ↦ g q c ne h on
    ])

    -- A breakpoint in use that is not in the text stands in text of the program.
    pub under_it :
        b.sw ≡ false → b.deleted ≡ false → bytes s.memory b.addr span ≡ bytes text b.addr span
    under_it off live = bytes-cong s.memory text b.addr span (λ x le lt.
        split_clean x (λ on. absurd (clash off on))
          (λ q c ne h on.
            beside x le lt c (inv.apart p q b c ne here h live (live_on c (inv.each q c h) on))))
      where
        clash : b.sw ≡ false → b.sw ≡ true → ⊥
        clash e f = cc

        live_on : (c : Breakpoint) → IsBp c → c.sw ≡ true → c.deleted ≡ false
        live_on c k on = elim (Bool-cases c.deleted) [
          | inl d ↦ absurd (let l = k.gone d in cc)
          | inr d ↦ d
        ]

        beside :
            (x : ℕ) → b.addr ≤ x → x < b.addr + span → (c : Breakpoint) → Spaced b c → Clear c x
        beside x le lt c (inl h) = inl (omega arith)
        beside x le lt c (inr h) = inr (omega arith)

  pub Clear-or_in : (b : Breakpoint) (x : ℕ) → Clear b x ⊎ ((b.addr ≤ x) × (x < b.addr + span))
  Clear-or_in b x = elim (Bool-cases (ltb x b.addr)) [
    | inl lt ↦ inl (inl (ground arith))
    | inr ge ↦ elim (Bool-cases (ltb x (b.addr + span))) [
      | inl lt ↦ inr (ground arith, ground arith)
      | inr past ↦ inl (inr (ground arith))
    ]
  ]

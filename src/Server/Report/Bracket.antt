-- ===== src/Server/Report/Bracket.antt =====
-- report.c: the messages of one call of realloc.
use mtrace.Base.{
  ℕ, ◌==◌, if◌then◌else◌, ◌≡◌, refl, sym, ap, ◌∙◌, inl, inr, true, false, List, [], ◌∷◌, ◌++◌,
  Bool-cases, Outcome, ok, ◌>>=◌, Ends,
}
use mtrace.Message.{MtOperation, mt_realloc, mt_realloc_enter, mt_realloc_done}
use mtrace.Server.Report.{
  Call, Caller, Sent, ReportOptions, sane_depth, report_alloc, report_realloc, _report_realloc,
  realloc_done,
}

abbrev pub operations : List Sent → List MtOperation
operations [] = []
operations (m ∷ ms) = m.operation ∷ operations ms

-- The messages that announce the pointer that is given and the pointer that is returned.
abbrev pub unless_null : ℕ → MtOperation → List MtOperation
unless_null ptr op = if ptr == 0 then [] else op ∷ []

operations-append : (xs ys : List Sent) → operations (xs ++ ys) ≡ operations xs ++ operations ys
operations-append [] ys = refl
operations-append (x ∷ xs) ys = ap (λ l. x.operation ∷ l) (operations-append xs ys)

report_alloc-operations :
    (t : Caller) (op : MtOperation) (ptr size depth : ℕ) (c : Call)
    → operations (report_alloc t op ptr size depth c) ≡ unless_null ptr op
unfolding report_alloc
report_alloc-operations t op ptr size depth c = elim (Bool-cases (ptr == 0)) [
  | inl e ↦ rw (e, report_alloc) refl
  | inr e ↦ rw (e, report_alloc) refl
]

module _ (options : ReportOptions) (t : Caller) (entry return : Call) where
  -- A whole call of `realloc`: its entry and its return.
  abbrev pub realloc_call : Outcome (Caller × List Sent)
  realloc_call = report_realloc options t entry >>= λ r.
      let s = _report_realloc options r.0 return in ok (s.0, r.1 ++ s.1)

  -- The operations of a call: the old block is given up first and the call is closed last, but only where
  -- there is an old block.
  abbrev pub bracket : List MtOperation
  bracket =
      if entry.param 0 == 0
      then unless_null return.retval mt_realloc
      else mt_realloc_enter ∷ (unless_null return.retval mt_realloc ++ mt_realloc_done ∷ [])

  abbrev pub IsBracket : Caller × List Sent → Type 0
  IsBracket (u, ms) = (u ≡ t) × (operations ms ≡ bracket)

  first_null :
      t.in_realloc ≡ false
      → entry.param 0 == 0 ≡ true
      → realloc_call
        ≡ ok (t, report_alloc t mt_realloc return.retval (return.param 1) options.bt_depth return)
  unfolding report_realloc _report_realloc
  first_null out e = simp (out, e, report_realloc, _report_realloc, ◌>>=◌)

  abbrev inside : Caller
  inside = record t { in_realloc = true }

  first_given :
      t.in_realloc ≡ false
      → entry.param 0 == 0 ≡ false
      → realloc_call
        ≡ ok (
          record t { in_realloc = false },
          report_alloc t mt_realloc_enter (entry.param 0) t.pid (sane_depth options t) entry
              ++ (report_alloc inside mt_realloc return.retval
                    (return.param 1)
                    options.bt_depth
                    return
                  ++ realloc_done options inside return.retval ∷ []),
        )
  unfolding report_realloc _report_realloc report_alloc
  first_given out e = simp (report_realloc, out, e, ◌>>=◌, _report_realloc)

  same_again : t.in_realloc ≡ false → record t { in_realloc = false } ≡ t
  same_again out = λ i. record t { in_realloc = sym out i }

  abbrev opening : List Sent
  opening = report_alloc t mt_realloc_enter (entry.param 0) t.pid (sane_depth options t) entry

  abbrev moving : List Sent
  moving = report_alloc inside mt_realloc return.retval (return.param 1) options.bt_depth return

  abbrev closing : List Sent
  closing = realloc_done options inside return.retval ∷ []

  sent_ops :
      entry.param 0 == 0 ≡ false
      → operations (opening ++ (moving ++ closing))
        ≡ mt_realloc_enter ∷ (unless_null return.retval mt_realloc ++ mt_realloc_done ∷ [])
  sent_ops e =
      let opened : operations opening ≡ mt_realloc_enter ∷ [] =
        report_alloc-operations t mt_realloc_enter (entry.param 0) t.pid (sane_depth options t)
          entry
        ∙ ap (λ b. if b then [] else mt_realloc_enter ∷ []) e in
      let moved =
        report_alloc-operations inside mt_realloc return.retval (return.param 1) options.bt_depth
          return in
      operations-append opening (moving ++ closing)
      ∙ ap (λ l. l ++ operations (moving ++ closing)) opened
      ∙ ap (λ l. mt_realloc_enter ∷ l)
          (operations-append moving closing ∙ ap (λ l. l ++ mt_realloc_done ∷ []) moved)

  -- A call of realloc from a thread that is in no other sends what its brackets say, in this order, and
  -- leaves the thread as it was.
  pub realloc_call-IsBracket : t.in_realloc ≡ false → Ends ⊥ IsBracket realloc_call
  realloc_call-IsBracket out = elim (Bool-cases (entry.param 0 == 0)) [
    | inl e ↦
        rw (first_null out e, Ends, e)
          (
            refl,
            report_alloc-operations t mt_realloc return.retval (return.param 1) options.bt_depth
                return,
          )
    | inr e ↦ rw (first_given out e, Ends, e) (same_again out, sent_ops e)
  ]

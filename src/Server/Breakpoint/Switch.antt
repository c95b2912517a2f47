-- ===== src/Server/Breakpoint/Switch.antt =====
-- breakpoint.c: a breakpoint that is switched on or off, and the text under it.
use mtrace.Base.{
  ℕ, zero, suc, ◌+◌, ◌≤◌, ◌<◌, ◌≡◌, refl, ◌≢◌, sym, subst, ap, ◌∙◌, ◌⊎◌, inl, inr, Bool, true,
  false, some, List, [], ◌∷◌, ◌++◌, length, drop, arith, ok, ◌>>=◌, Ends, Ends-bind,
}
use mathlib.Core.List.{append-nil}
use mtrace.Server.ProcMemory.{ProcBytes, Copied, bytes, write, copy_to_proc, copy_from_to_proc}
use mtrace.Server.ProcMemory.Bytes.{write-outside, bytes-write, bytes-eq, length-bytes}
use mtrace.Server.ProcMemory.Copy.{copy_to_proc-IsWritten, copy_from_to_proc-IsExchanged}
use mtrace.Server.Breakpoint.{
  Breakpoint, Leader, Target, require, bp_at, store_bp, sw_on, sw_off, same_bytes,
  enable_sw_breakpoint, disable_sw_breakpoint,
}
use mtrace.Server.Breakpoint.Text.{
  span, IsText, changed, changed-here, changed-there, changed-IsText, split_clean, under_it,
  Clear-or_in,
}

-- A target whose memory ptrace reads and writes.
pub record IsTraced (target : Target) : Type 0 where
  pub word : 0 < target.os.word
  pub readable : (x : ℕ) → target.os.readable x ≡ true
  pub writable : (x : ℕ) → target.os.writable x ≡ true

module _ (target : Target) (text : ProcBytes) (traced : IsTraced target) where
  module _ (s : Leader) (p : ℕ) (b : Breakpoint) (here : s.heap p ≡ some b)
      (stopped : s.stopped ≡ true) (hw : b.hw ≡ false) where
    enable_sw-runs :
        b.sw ≡ false
        → enable_sw_breakpoint target s p ≡ (
            copy_from_to_proc target.os s.memory b.addr target.break_value >>= λ c.
            let orig = c.dst ++ drop (length c.dst) b.orig_value in
            ok (
              changed target text s p b
                (sw_on b orig (same_bytes target.break_value orig))
                c.memory
                s.stopped))
    unfolding enable_sw_breakpoint bp_at require
    enable_sw-runs off =
        rw (here, stopped, off, hw, enable_sw_breakpoint, bp_at, require, ◌>>=◌) refl

    disable_sw-runs :
        b.sw ≡ true
        → disable_sw_breakpoint target s p ≡ (
            copy_to_proc target.os s.memory b.addr b.orig_value >>= λ c.
            ok (changed target text s p b (sw_off b) c.memory s.stopped))
    unfolding disable_sw_breakpoint bp_at require
    disable_sw-runs off =
        rw (here, stopped, off, hw, disable_sw_breakpoint, bp_at, require, ◌>>=◌) refl

  -- What switching on leaves: the break instruction in the text, and what stood there in the breakpoint.
  pub record IsOn (s : Leader) (p : ℕ) (b : Breakpoint) (t : Leader) : Type 0 where
    pub now : Breakpoint
    pub here : t.heap p ≡ some now
    pub enabled : now.enabled ≡ true
    pub sw : now.sw ≡ true
    pub hw : now.hw ≡ false
    pub deleted : now.deleted ≡ b.deleted
    pub addr : now.addr ≡ b.addr
    pub orig : now.orig_value ≡ bytes s.memory b.addr (span target text)
    pub memory : t.memory ≡ write s.memory b.addr target.break_value

  drop_all : (n : ℕ) (xs : List ℕ) → length xs ≤ n → drop n xs ≡ []
  drop_all zero [] h = refl
  drop_all zero (x ∷ xs) h = ground arith
  drop_all (suc n) [] h = refl
  drop_all (suc n) (x ∷ xs) h = drop_all n xs (omega arith)

  module _ (s : Leader) (p : ℕ) (b : Breakpoint) (inv : IsText target text s)
      (here : s.heap p ≡ some b) (live : b.deleted ≡ false) where
    abbrev saved : Copied → List ℕ
    saved c = c.dst ++ drop (length c.dst) b.orig_value

    -- The bytes that are saved are those of the memory.
    saved-bytes :
        (c : Copied)
        → c.dst ≡ bytes s.memory b.addr (span target text)
        → saved c ≡ bytes s.memory b.addr (span target text)
    saved-bytes c e =
        let k = inv.each p b here in
        ap (λ l. c.dst ++ l)
          (drop_all (length c.dst) b.orig_value
            (omega (arith, k.size, ap length e, length-bytes s.memory b.addr (span target text))))
        ∙ append-nil c.dst
        ∙ e

    on-IsText :
        (c : Copied) (same : Bool) (st : Bool)
        → b.sw ≡ false
        → c.memory ≡ write s.memory b.addr target.break_value
        → c.dst ≡ bytes s.memory b.addr (span target text)
        → IsText target text (changed target text s p b (sw_on b (saved c) same) c.memory st)
    on-IsText c same st off m d =
        let k = inv.each p b here in
        let sv = saved-bytes c d in
        changed-IsText target text s p b (sw_on b (saved c) same) c.memory st inv here
          (record {
            same = refl;
            hw = k.hw;
            size = ap length sv ∙ length-bytes s.memory b.addr (span target text);
            orig = λ on. sv ∙ under_it target text s p b inv here off live;
            gone = λ e. absurd (gone_live e);
          })
          refl (λ e. live)
          (λ x f g.
            ap (λ n. n x) m
            ∙ write-outside s.memory b.addr target.break_value x (f refl)
            ∙ split_clean target text s p b inv here x (λ on. f refl) g)
      where
        gone_live : b.deleted ≡ true → ⊥
        gone_live e = cc

    pub enable_sw-IsOn :
        s.stopped ≡ true
        → b.sw ≡ false
        → Ends ⊥ (λ t. IsOn s p b t × IsText target text t) (enable_sw_breakpoint target s p)
    unfolding store_bp
    enable_sw-IsOn st off =
        let k = inv.each p b here in
        rw (enable_sw-runs s p b here st k.hw off) (
          Ends-bind _ _ _ (copy_from_to_proc target.os s.memory b.addr target.break_value) _
            (copy_from_to_proc-IsExchanged target.os traced.word traced.readable traced.writable
              s.memory b.addr target.break_value)
            (λ c w.
              let b1 = sw_on b (saved c) (same_bytes target.break_value (saved c)) in
              (
                record {
                  now = b1;
                  here = changed-here target text s p b b1 c.memory s.stopped;
                  enabled = refl;
                  sw = refl;
                  hw = k.hw;
                  deleted = refl;
                  addr = refl;
                  orig = saved-bytes c w.1;
                  memory = w.0.0;
                },
                on-IsText c _ s.stopped off w.0.0 w.1,
              )))

    off-IsText :
        (c : Copied) (st : Bool)
        → b.sw ≡ true
        → c.memory ≡ write s.memory b.addr b.orig_value
        → IsText target text (changed target text s p b (sw_off b) c.memory st)
    off-IsText c st on m =
        let k = inv.each p b here in
        changed-IsText target text s p b (sw_off b) c.memory st inv here
          (record {
            same = refl;
            hw = k.hw;
            size = k.size;
            orig = λ e. absurd (never e);
            gone = λ e. refl;
          })
          refl (λ e. e)
          (λ x f g. ap (λ n. n x) m ∙ elim (Clear-or_in target text b x) [
            | inl out ↦
                write-outside s.memory b.addr b.orig_value x
                  (subst (λ z. (x < b.addr) ⊎ (b.addr + z ≤ x)) (sym k.size) out)
                ∙ split_clean target text s p b inv here x (λ e. out) g
            | inr within ↦
                bytes-eq (write s.memory b.addr b.orig_value) text b.addr (span target text)
                  (subst (λ z. bytes (write s.memory b.addr b.orig_value) b.addr z ≡ b.orig_value)
                      k.size (bytes-write s.memory b.addr b.orig_value)
                    ∙ k.orig on)
                  x within.0 within.1
          ])
      where
        never : false ≡ true → ⊥
        never e = cc

    -- What switching off leaves.
    pub record IsOff (t : Leader) : Type 0 where
      pub off_at : t.heap p ≡ some (sw_off b)
      pub others : (q : ℕ) → p ≢ q → t.heap q ≡ s.heap q
      pub now_memory : t.memory ≡ write s.memory b.addr b.orig_value

    pub disable_sw-IsOff :
        s.stopped ≡ true
        → b.sw ≡ true
        → Ends ⊥ (λ t. IsOff t × IsText target text t) (disable_sw_breakpoint target s p)
    unfolding store_bp
    disable_sw-IsOff st on =
        let k = inv.each p b here in
        rw (disable_sw-runs s p b here st k.hw on) (
          Ends-bind _ _ _ (copy_to_proc target.os s.memory b.addr b.orig_value) _
            (copy_to_proc-IsWritten target.os traced.word traced.readable traced.writable s.memory
              b.addr b.orig_value)
            (λ c w. (
              record {
                off_at = changed-here target text s p b (sw_off b) c.memory s.stopped;
                others = changed-there target text s p b (sw_off b) c.memory s.stopped;
                now_memory = w.0;
              },
              off-IsText c s.stopped on w.0,
            )))

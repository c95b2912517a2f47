-- ===== src/Server/Breakpoint/Enable.antt =====
-- breakpoint.c: breakpoint_enable and breakpoint_disable on a live breakpoint.
use mtrace.Base.{ℕ, ◌≡◌, refl, ◌∙◌, true, false, some, ◌>>=◌, Ends, Ends-map}
use mtrace.Server.ProcMemory.{ProcBytes}
use mtrace.Server.Breakpoint.{
  Breakpoint, Leader, Target, bp_at, store_bp, stop_threads, enable_sw_breakpoint,
  disable_sw_breakpoint, breakpoint_enable, breakpoint_disable,
}
use mtrace.Server.Breakpoint.Text.{IsText, changed, changed-here, changed-IsText, split_clean}
use mtrace.Server.Breakpoint.Switch.{IsTraced, IsOn, enable_sw-IsOn}

module _ (target : Target) (text : ProcBytes) (traced : IsTraced target) where
  pub stopped-IsText : (s : Leader) → IsText target text s → IsText target text (stop_threads s)
  stopped-IsText s inv = record { each = inv.each; clean = inv.clean; apart = inv.apart }

  module _ (s : Leader) (p : ℕ) (b : Breakpoint) (inv : IsText target text s)
      (here : s.heap p ≡ some b) where
    -- The store `bp->hw = 0` in front of the switch.
    abbrev soft : Breakpoint
    soft = record b { hw = false }

    soft-IsText : IsText target text (changed target text s p b soft s.memory true)
    soft-IsText =
        let k = inv.each p b here in
        changed-IsText target text s p b soft s.memory true inv here
          (record { same = k.same; hw = refl; size = k.size; orig = k.orig; gone = k.gone }) refl
          (λ e. e) (λ x f g. split_clean target text s p b inv here x f g)

    enable-runs :
        b.deleted ≡ false
        → b.sw ≡ false
        → breakpoint_enable target s p
          ≡ enable_sw_breakpoint target (changed target text s p b soft s.memory true) p
    unfolding breakpoint_enable bp_at store_bp
    enable-runs live off =
        let en = (inv.each p b here).same ∙ off in
        simp (here, live, en, breakpoint_enable, bp_at, ◌>>=◌)

    pub disable-runs :
        b.deleted ≡ false
        → b.sw ≡ true
        → breakpoint_disable target s p ≡ disable_sw_breakpoint target (stop_threads s) p
    unfolding breakpoint_disable bp_at
    disable-runs live on =
        let en = (inv.each p b here).same ∙ on in
        simp (here, live, en, breakpoint_disable, bp_at, ◌>>=◌)

    -- A live breakpoint that is off is switched on: the memory holds the break instruction at its address,
    -- the breakpoint holds what stood there, and the memory is the text under the breakpoints again.
    pub breakpoint_enable-IsOn :
        b.deleted ≡ false
        → b.sw ≡ false
        → Ends ⊥
            (λ t. IsOn target text traced s p b t × IsText target text t)
            (breakpoint_enable target s p)
    unfolding store_bp
    breakpoint_enable-IsOn live off =
        let s1 = changed target text s p b soft s.memory true in
        rw (enable-runs live off) (
          Ends-map _ _ _ (enable_sw_breakpoint target s1 p)
            (enable_sw-IsOn target text traced s1 p soft soft-IsText
              (changed-here target text s p b soft s.memory true) live refl off)
            (λ t w. (
              record {
                now = w.0.now;
                here = w.0.here;
                enabled = w.0.enabled;
                sw = w.0.sw;
                hw = w.0.hw;
                deleted = w.0.deleted;
                addr = w.0.addr;
                orig = w.0.orig;
                memory = w.0.memory;
              },
              w.1,
            )))

  -- A pointer whose breakpoint is not in the text.
  abbrev pub OffAt : Leader → ℕ → Type 0
  OffAt t q = (c : Breakpoint) → t.heap q ≡ some c → c.sw ≡ false

  -- Nothing is freed and nothing is switched on.
  pub record IsQuiet (r t : Leader) : Type 0 where
    pub alive :
        (q : ℕ) (c : Breakpoint) → r.heap q ≡ some c → (d : Breakpoint) × (t.heap q ≡ some d)
    pub back :
        (q : ℕ) (d : Breakpoint)
        → t.heap q ≡ some d
        → d.sw ≡ true
        → (c : Breakpoint) × (r.heap q ≡ some c) × (c.sw ≡ true)

  pub IsQuiet-refl : (s : Leader) → IsQuiet s s
  IsQuiet-refl s = record { alive = λ q c h. (c, h); back = λ q d h on. (d, h, on) }

  pub IsQuiet-trans : (r s t : Leader) → IsQuiet r s → IsQuiet s t → IsQuiet r t
  IsQuiet-trans r s t f g = record {
    alive = λ q c h. let d = f.alive q c h in g.alive q d.0 d.1;
    back = λ q d h on. let c = g.back q d h on in f.back q c.0 c.1 c.2;
  }

  abbrev pub IsDone : Leader → ℕ → Leader → Type 0
  IsDone s p t = IsText target text t × IsQuiet s t × OffAt t p

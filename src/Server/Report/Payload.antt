-- ===== src/Server/Report/Payload.antt =====
-- report.c and client/process.c: what the client reads of a message of the server.
use mtrace.Base.{
  ℕ, zero, suc, ◌+◌, ◌≤◌, ◌<◌, ◌==◌, ◌≡◌, refl, sym, ap, ◌∙◌, inl, inr, Option, none, some, List,
  [], ◌∷◌, ◌++◌, length, length-append, drop, arith, Bool-cases, ok, ◌>>=◌, ◌≢◌, ==_iff,
}
use mathlib.Core.List.{append_assoc}
use mtrace.Message.{MtOperation}
use mtrace.Message.Wire.{Format, ptr_size, get_ulong, put_ulong}
use mtrace.Message.Codec.{pow256, get_ulong-put_ulong, length-bytes_le}
use mtrace.Process.Handlers.{alloc_payload, or_fault}
use mtrace.Server.Report.{
  Frame, Call, Caller, Sent, format_of, report_alloc, cast, unwind, stack_data, put_all,
  alloc_bytes,
}

cast-fits : (f : Format) (v : ℕ) → cast f v < pow256 (ptr_size f)
cast-fits f v = elim (Bool-cases f.is_64bit) [
  | inl e ↦ rw (e) (omega arith)
  | inr e ↦ rw (e) (omega arith)
]

pub length-put_ulong : (f : Format) (v : ℕ) → length (put_ulong f v) ≡ ptr_size f
unfolding put_ulong
length-put_ulong f v = length-bytes_le (ptr_size f) _

drop-append : (xs ys : List ℕ) → drop (length xs) (xs ++ ys) ≡ ys
drop-append [] ys = refl
drop-append (x ∷ xs) ys = drop-append xs ys

unwind_fits :
    (f : Format) (room last : ℕ) (frames : List Frame) → length (unwind f room last frames) ≤ room
unfolding unwind
unwind_fits f zero last frames = omega arith
unwind_fits f (suc room) last [] = omega arith
unwind_fits f (suc room) last (fr ∷ frames) = elim (Bool-cases fr.in_loader) [
  | inl l ↦ rw (l, unwind) (unwind_fits f (suc room) last frames)
  | inr n ↦ elim (Bool-cases (cast f fr.ip == last)) [
    | inl e ↦ rw (n, e, unwind) (unwind_fits f (suc room) last frames)
    | inr e ↦ elim (Bool-cases (cast f fr.ip == 0)) [
      | inl z ↦ rw (n, e, z, unwind) (omega arith)
      | inr z ↦ rw (n, e, z, unwind) (omega (arith, unwind_fits f room (cast f fr.ip) frames))
    ]
  ]
]

stack_data_fits : (f : Format) (depth : ℕ) (c : Call) → length (stack_data f depth c) ≤ depth
unfolding stack_data
stack_data_fits f zero c = omega arith
stack_data_fits f (suc room) c = by_frames c.frames refl
  where
    by_frames :
        (o : Option (List Frame)) → c.frames ≡ o → length (stack_data f (suc room) c) ≤ suc room
    by_frames none e = rw (e, stack_data) (omega arith)
    by_frames (some frames) e =
        rw (e, stack_data) (omega (arith, unwind_fits f room (cast f c.libsym) frames))

drop-by : (n : ℕ) (xs ys : List ℕ) → length xs ≡ n → drop n (xs ++ ys) ≡ ys
drop-by n xs ys e = ap (λ k. drop k (xs ++ ys)) (sym e) ∙ drop-append xs ys

payload-runs :
    (f : Format) (bytes : List ℕ) (x y : ℕ) (rest : List ℕ)
    → get_ulong f bytes ≡ some x
    → get_ulong f (drop (ptr_size f) bytes) ≡ some y
    → drop (ptr_size f + ptr_size f) bytes ≡ rest
    → alloc_payload f bytes ≡ ok (record { ptr = x; size = y; data_bytes = rest })
unfolding alloc_payload
payload-runs f bytes x y rest p q r = rw (p, q, r, alloc_payload, or_fault, ◌>>=◌) refl

payload_read :
    (f : Format) (x y : ℕ) (rest : List ℕ)
    → x < pow256 (ptr_size f)
    → y < pow256 (ptr_size f)
    → alloc_payload f (put_ulong f x ++ put_ulong f y ++ rest)
      ≡ ok (record { ptr = x; size = y; data_bytes = rest })
payload_read f x y rest hx hy =
    let px = put_ulong f x in
    let py = put_ulong f y in
    let n = ptr_size f in
    let both : length (px ++ py) ≡ n + n =
      omega (arith, length-append px py, length-put_ulong f x, length-put_ulong f y) in
    payload-runs f (px ++ py ++ rest) x y rest
      (ap (get_ulong f) (append_assoc px py rest) ∙ get_ulong-put_ulong f x (py ++ rest) hx)
      (ap (λ l. get_ulong f (drop n l)) (append_assoc px py rest)
        ∙ ap (get_ulong f) (drop-by n px (py ++ rest) (length-put_ulong f x))
        ∙ get_ulong-put_ulong f y rest hy)
      (drop-by (n + n) (px ++ py) rest both)

-- One message, which the client reads as the pointer, the size and the stack; none for a null pointer.
abbrev pub IsReport : Caller → MtOperation → ℕ → ℕ → ℕ → Call → List Sent → Type 0
IsReport t op ptr size depth c [] = ptr ≡ 0
IsReport t op ptr size depth c (m ∷ []) =
    let f = format_of t in
    (m.operation ≡ op)
    × (m.pid ≡ t.leader)
    × (ptr ≢ 0)
    × (alloc_payload f m.payload
        ≡ ok (record {
          ptr = cast f ptr;
          size = cast f size;
          data_bytes = put_all f (stack_data f depth c);
        }))
    × (length (stack_data f depth c) ≤ depth)
IsReport t op ptr size depth c (m ∷ n ∷ ms) = ⊥

-- For a pointer that is not null the server sends one message. The client reads from it the pointer and the
-- size, in the traced process's width, and the stack, which has no more addresses than asked for.
pub report_alloc-IsReport :
    (t : Caller) (op : MtOperation) (ptr size depth : ℕ) (c : Call)
    → IsReport t op ptr size depth c (report_alloc t op ptr size depth c)
unfolding report_alloc alloc_bytes
report_alloc-IsReport t op ptr size depth c =
    let f = format_of t in
    elim (Bool-cases (ptr == 0)) [
      | inl e ↦ rw (e, report_alloc, IsReport) ((==_iff ptr 0).0 e)
      | inr e ↦
          rw (e, report_alloc, IsReport)
            (
              refl,
              refl,
              (λ z. ground arith),
              payload_read f (cast f ptr) (cast f size) (put_all f (stack_data f depth c))
                  (cast-fits f ptr) (cast-fits f size),
              stack_data_fits f depth c,
            )
    ]

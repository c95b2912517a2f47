-- ===== src/Server/Report/Maps.antt =====
-- report.c: the messages of the files that a traced process maps, and what the client books of them.
use mtrace.Base.{
  ℕ, suc, ◌+◌, ◌-◌, ◌*◌, ◌<◌, ◌==◌, ◌≡◌, ◌≢◌, refl, sym, ap, ◌∙◌, inl, inr, true, false, Option,
  none, some, List, [], ◌∷◌, ◌++◌, length, length-append, drop, arith, All, Bool-cases, ok, ◌>>=◌,
}
use mathlib.Core.List.{append_assoc}
use mtrace.Base.Word.{w64}
use mtrace.Message.Wire.{Format, load, get_ulong, put_ulong, val, swap_option}
use mtrace.Message.Codec.{get_ulong-put_ulong}
use mtrace.Process.Handlers.{or_fault}
use mtrace.Process.Maps.{Maps, copy_name, field64, process_add_map, _process_add_map, named}
use mtrace.Server.Report.{put_all}
use mtrace.Server.Report.Payload.{length-put_ulong}

-- What `struct libref` holds of a mapped file.
pub record Mapped : Type 0 where
  pub filename : List ℕ
  pub txt_vaddr : ℕ
  pub txt_offset : ℕ
  pub txt_size : ℕ
  pub bias : ℕ

-- The fields of a message have 64 bits, in the order of bytes of the server: the other one than that of
-- the client, where `f` says so.
abbrev pub sender : Format → Format
sender f = record { is_64bit = true; swap_endian = f.swap_endian }

abbrev pub map_fields : Mapped → List ℕ
map_fields m = m.txt_vaddr ∷ m.txt_offset ∷ m.txt_size ∷ m.bias ∷ []

-- The payload of `_report_map`; the name goes with its NUL.
unfoldable pub _report_map : Format → Mapped → List ℕ
_report_map f m = put_all (sender f) (map_fields m) ++ (m.filename ++ 0 ∷ [])

drop-past : (xs ys : List ℕ) (n k : ℕ) → length xs ≡ n → drop (n + k) (xs ++ ys) ≡ drop k ys
drop-past xs ys n k e = ap (λ j. drop (j + k) (xs ++ ys)) (sym e) ∙ past xs
  where
    first : (j : ℕ) → 0 + j ≡ j
    first j = omega arith

    next : (a j : ℕ) → suc a + j ≡ suc (a + j)
    next a j = omega arith

    past : (zs : List ℕ) → drop (length zs + k) (zs ++ ys) ≡ drop k ys
    past [] = ap (λ j. drop j ys) (first k)
    past (z ∷ zs) = ap (λ j. drop j (z ∷ zs ++ ys)) (next (length zs) k) ∙ past zs

module _ (f : Format) where
  -- The first field of what is left, and what is left behind it.
  put_all-first :
      (v : ℕ) (vs rest : List ℕ)
      → v < w64
      → get_ulong (sender f) (put_all (sender f) (v ∷ vs) ++ rest) ≡ some v
  unfolding put_all
  put_all-first v vs rest h =
      ap (get_ulong (sender f)) (append_assoc (put_ulong (sender f) v) (put_all (sender f) vs) rest)
      ∙ get_ulong-put_ulong (sender f) v (put_all (sender f) vs ++ rest) h

  put_all-behind :
      (v : ℕ) (vs rest : List ℕ) (k : ℕ)
      → drop (8 + k) (put_all (sender f) (v ∷ vs) ++ rest) ≡ drop k (put_all (sender f) vs ++ rest)
  unfolding put_all
  put_all-behind v vs rest k =
      ap (drop (8 + k)) (append_assoc (put_ulong (sender f) v) (put_all (sender f) vs) rest)
      ∙ drop-past (put_ulong (sender f) v) (put_all (sender f) vs ++ rest) 8 k
          (length-put_ulong (sender f) v)

  length-put_all : (vs : List ℕ) → length (put_all (sender f) vs) ≡ 8 * length vs
  unfolding put_all
  length-put_all [] = refl
  length-put_all (v ∷ vs) = omega (
    arith,
    length-append (put_ulong (sender f) v) (put_all (sender f) vs),
    length-put_ulong (sender f) v,
    length-put_all vs,
  )

  field64-get :
      (i : ℕ) (payload : List ℕ) (v : ℕ)
      → get_ulong (sender f) (drop (8 * i) payload) ≡ some v
      → field64 f i payload ≡ ok v
  unfolding get_ulong field64 val
  field64-get i payload v e = by_load (load 8 (drop (8 * i) payload)) e
    where
      same_value : (a b : ℕ) → some a ≡ some b → a ≡ b
      same_value a b q = cc

      by_load :
          (o : Option ℕ)
          → swap_option f.swap_endian 8 o ≡ some v
          → (or_fault o >>= λ x. ok (val f 8 x)) ≡ ok v
      by_load none q = absurd (let k = q in cc)
      by_load (some x) q = ap ok (same_value (val f 8 x) v q)

copied_name :
    (name : List ℕ) (n : ℕ)
    → All (λ x. x ≢ 0) name
    → length name < n
    → copy_name (name ++ 0 ∷ []) n ≡ name
unfolding copy_name
copied_name [] n a h = elim (Bool-cases (n == 0)) [ inl e ↦ rw (e) refl | inr e ↦ rw (e) refl ]
copied_name (x ∷ name) n a h =
    let ne : n == 0 ≡ false = ground arith in
    let nx : x == 0 ≡ false = ground (arith, a.0) in
    rw (ne, nx, copy_name) (ap (λ l. x ∷ l) (copied_name name (n - 1) a.1 (omega arith)))

module _ (f : Format) (m : Mapped) (h : All (λ v. v < w64) (map_fields m)) where
  abbrev name : List ℕ
  name = m.filename ++ 0 ∷ []

  abbrev rest_after : List ℕ → List ℕ
  rest_after vs = put_all (sender f) vs ++ name

  -- The four fields and what follows them.
  behind_1 :
      (k : ℕ)
      → drop (8 + k) (_report_map f m)
        ≡ drop k (rest_after (m.txt_offset ∷ m.txt_size ∷ m.bias ∷ []))
  unfolding _report_map
  behind_1 k = put_all-behind f m.txt_vaddr (m.txt_offset ∷ m.txt_size ∷ m.bias ∷ []) name k

  behind_2 :
      (k : ℕ) → drop (16 + k) (_report_map f m) ≡ drop k (rest_after (m.txt_size ∷ m.bias ∷ []))
  behind_2 k =
      ap (λ j. drop j (_report_map f m)) (sum k)
      ∙ behind_1 (8 + k)
      ∙ put_all-behind f m.txt_offset (m.txt_size ∷ m.bias ∷ []) name k
    where
      sum : (k : ℕ) → 16 + k ≡ 8 + (8 + k)
      sum k = omega arith

  behind_3 : (k : ℕ) → drop (24 + k) (_report_map f m) ≡ drop k (rest_after (m.bias ∷ []))
  behind_3 k =
      ap (λ j. drop j (_report_map f m)) (sum k)
      ∙ behind_2 (8 + k)
      ∙ put_all-behind f m.txt_size (m.bias ∷ []) name k
    where
      sum : (k : ℕ) → 24 + k ≡ 16 + (8 + k)
      sum k = omega arith

  behind_4 : drop 32 (_report_map f m) ≡ name
  unfolding put_all
  behind_4 = behind_3 8 ∙ put_all-behind f m.bias [] name 0

  field_0 : field64 f 0 (_report_map f m) ≡ ok m.txt_vaddr
  unfolding _report_map
  field_0 = field64-get f 0 (_report_map f m) m.txt_vaddr (put_all-first f m.txt_vaddr _ name h.0)

  field_1 : field64 f 1 (_report_map f m) ≡ ok m.txt_offset
  field_1 =
      field64-get f 1 (_report_map f m) m.txt_offset
        (ap (get_ulong (sender f)) (behind_1 0) ∙ put_all-first f m.txt_offset _ name h.1.0)

  field_2 : field64 f 2 (_report_map f m) ≡ ok m.txt_size
  field_2 =
      field64-get f 2 (_report_map f m) m.txt_size
        (ap (get_ulong (sender f)) (behind_2 0) ∙ put_all-first f m.txt_size _ name h.1.1.0)

  field_3 : field64 f 3 (_report_map f m) ≡ ok m.bias
  field_3 =
      field64-get f 3 (_report_map f m) m.bias
        (ap (get_ulong (sender f)) (behind_3 0) ∙ put_all-first f m.bias _ name h.1.1.1.0)

  name_length : length (_report_map f m) - 32 ≡ length m.filename + 1
  unfolding _report_map
  name_length = omega (
    arith,
    length-append (put_all (sender f) (map_fields m)) name,
    length-put_all f (map_fields m),
    length-append m.filename (0 ∷ []),
  )

-- The client books the file that the server reports, with its name, whichever order of bytes the server has.
pub process_add_map-report_map :
    (f : Format) (p : Maps) (m : Mapped)
    → All (λ v. v < w64) (map_fields m)
    → All (λ x. x ≢ 0) m.filename
    → process_add_map f p (_report_map f m)
      ≡ ok (record {
        filename = named p.map_list p.filename m.filename;
        map_list =
            p.map_list
            ++ record {
              offset = m.txt_offset;
              addr = m.txt_vaddr;
              size = m.txt_size;
              bias = m.bias;
              filename = m.filename;
              binfile = none;
              ignore = false;
            }
              ∷ [];
      })
unfolding process_add_map _process_add_map
process_add_map-report_map f p m h a =
    rw
      (
        field_0 f m h,
        field_1 f m h,
        field_2 f m h,
        field_3 f m h,
        behind_4 f m h,
        name_length f m h,
        copied_name m.filename (length m.filename + 1) a (omega arith),
      )
      refl

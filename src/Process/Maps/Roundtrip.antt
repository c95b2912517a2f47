-- ===== src/Process/Maps/Roundtrip.antt =====
-- client/process.c: a map that is added and deleted again.
use mtrace.Base.{
  ℕ, ◌≡◌, refl, inl, inr, ◌-◌, length, arith, if◌then◌else◌, true, false, none, some, List, [], ◌∷◌,
  ◌++◌, drop, All, Bool-cases, ok, ◌>>=◌,
}
use mtrace.Message.Wire.{Format}
use mtrace.Process.State.{Map}
use mtrace.Process.Resolv.{covers, locate_map}
use mtrace.Process.Maps.{
  Maps, _process_add_map, field64, process_add_map, same_map, named, copy_name, new_map, del_first,
  process_del_map,
}

del_first-append :
    (addr offset size : ℕ) (ms : List Map) (m : Map)
    → All (λ x. same_map addr offset size x ≡ false) ms
    → same_map addr offset size m ≡ true
    → del_first addr offset size (ms ++ m ∷ []) ≡ some ms
unfolding del_first
del_first-append addr offset size [] m h e = rw (e, del_first) refl
del_first-append addr offset size (x ∷ ms) m h e =
    rw (h.0, del_first) (rw (del_first-append addr offset size ms m h.1 e) refl)

same_map_refl :
    (a o s : ℕ) (m : Map) → m.addr ≡ a → m.offset ≡ o → m.size ≡ s → same_map a o s m ≡ true
unfolding same_map
same_map_refl a o s m e f g = ground (arith, e, f, g)

module _ (f : Format) (p : Maps) (payload : List ℕ) (addr offset size bias : ℕ)
    (a : field64 f 0 payload ≡ ok addr) (o : field64 f 1 payload ≡ ok offset)
    (s : field64 f 2 payload ≡ ok size) where
  abbrev sent : Map
  sent = new_map addr offset size bias (drop 32 payload) (length payload - 32) none

  abbrev with_map : Maps
  with_map = record {
    filename = named p.map_list p.filename sent.filename;
    map_list = p.map_list ++ sent ∷ [];
  }

  add-runs : field64 f 3 payload ≡ ok bias → process_add_map f p payload ≡ ok with_map
  unfolding process_add_map _process_add_map
  add-runs b = rw (a, o, s, b) refl

  del-runs :
      All (λ m. same_map addr offset size m ≡ false) p.map_list
      → process_del_map f with_map payload ≡ ok (record with_map { map_list = p.map_list })
  unfolding process_del_map
  del-runs fresh =
      rw (a, o, s)
        (rw
          (
            del_first-append addr offset size p.map_list sent fresh
                (same_map_refl addr offset size sent refl refl refl),
            ◌>>=◌,
          )
          refl)

-- Where no map has the address, offset and size of a new one, adding it and deleting it again brings
-- the list of the maps back.
pub process_del_map-add_map :
    (f : Format) (p : Maps) (payload : List ℕ) (addr offset size bias : ℕ)
    → field64 f 0 payload ≡ ok addr
    → field64 f 1 payload ≡ ok offset
    → field64 f 2 payload ≡ ok size
    → field64 f 3 payload ≡ ok bias
    → All (λ m. same_map addr offset size m ≡ false) p.map_list
    → (process_add_map f p payload >>= λ q. process_del_map f q payload)
      ≡ ok (record p {
        filename = named p.map_list p.filename (copy_name (drop 32 payload) (length payload - 32));
      })
process_del_map-add_map f p payload addr offset size bias a o s b fresh =
    rw (add-runs f p payload addr offset size bias a o s b)
      (del-runs f p payload addr offset size bias a o s fresh)

-- What is looked up in the list after a map was added: the older maps go first.
pub locate_map-append :
    (ms : List Map) (m : Map) (a : ℕ)
    → locate_map (ms ++ m ∷ []) a
      ≡ elim (locate_map ms a) [ some x ↦ some x | none ↦ if covers a m then some m else none ]
unfolding locate_map
locate_map-append [] m a = elim (Bool-cases (covers a m)) [
  | inl e ↦ rw (e, locate_map) refl
  | inr e ↦ rw (e, locate_map) refl
]
locate_map-append (x ∷ ms) m a = elim (Bool-cases (covers a x)) [
  | inl e ↦ rw (e, locate_map) refl
  | inr e ↦ rw (e, locate_map) (locate_map-append ms m a)
]

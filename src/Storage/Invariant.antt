-- ===== src/Storage/Invariant.antt =====
-- The invariant of the index, for saving and deleting.
use wisp_esp.Base.{
  ℕ, zero, suc, ◌+◌, ◌%◌, ◌^◌, ◌≤◌, ◌<◌, ◌≡◌, refl, sym, ap, subst, ◌∙◌, inl, inr, true, false,
  none, some, List, [], ◌∷◌, ◌++◌, arith, length, Bool-cases, bit, bytes_eq_sound, first_where,
  count_where, set, get_elem?, count_where-set, count_where-append, first_where-none, length-set,
  length-take, take-set_next, take-set_lt, get_elem?_bound,
}
use wisp_esp.Protocol.{Bytes}
use wisp_esp.Storage.Types.{IndexEntry, Engine, entries, mark_deleted, max_events}
use wisp_esp.Storage.Ops.{is_live, put_entry, append_entry}
use wisp_esp.Storage.Numbering.{Ascending, Ascending-append}

-- The array has its size and is not overrun, no event is live twice, the files are numbered, and
-- the next number is a `uint32_t`.
pub record IsValid (eng : Engine) : Type 0 where
  pub ready : eng.initialized ≡ true
  pub size : length eng.index ≡ eng.max_index_entries
  pub small : eng.max_index_entries ≤ max_events
  pub fits : eng.index_count ≤ eng.max_index_entries
  pub single : (id : Bytes) → count_where (is_live id) (entries eng) ≤ 1
  pub numbered : Ascending 0 eng.next_file_index (entries eng)
  pub numbers : eng.next_file_index < 2 ^ 32

pub is_live-mark_deleted : (id : Bytes) (e : IndexEntry) → is_live id (mark_deleted e) ≡ false
is_live-mark_deleted id e = ground arith

pub Ascending-set :
    (lo hi : ℕ) (es : List IndexEntry) (i : ℕ) (x y : IndexEntry)
    → get_elem? es i ≡ some x
    → y.file_index ≡ x.file_index
    → Ascending lo hi es
    → Ascending lo hi (set es i y)
Ascending-set lo hi [] i x y got n h = h
Ascending-set lo hi (z ∷ es) (suc i) x y got n h =
    (h.0, Ascending-set (suc z.file_index) hi es i x y got n h.1)
Ascending-set lo hi (z ∷ es) zero x y got n h =
    let same : z ≡ x = cc in
    let number : y.file_index ≡ z.file_index =
      n ∙ sym (ap (λ (k : IndexEntry). k.file_index) same) in
    (rw number h.0, subst (λ k. Ascending (suc k) hi es) (sym number) h.1)

module _ (eng : Engine) (v : IsValid eng) where
  pub length-entries : length (entries eng) ≡ eng.index_count
  length-entries = omega (arith, length-take eng.index_count eng.index, v.size, v.fits)

  -- The entries after an append, and after a write into a cell in use.
  pub entries-append_entry :
      (e : IndexEntry)
      → eng.index_count < eng.max_index_entries
      → entries (append_entry eng e) ≡ entries eng ++ e ∷ []
  unfolding append_entry
  entries-append_entry e room =
      let step : (eng.index_count + 1) % 2 ^ 16 ≡ suc eng.index_count = omega (arith, v.small) in
      rw step (take-set_next eng.index_count eng.index e (omega (arith, v.size)))

  pub entries-put_entry :
      (i : ℕ) (x y : IndexEntry)
      → get_elem? (entries eng) i ≡ some x
      → entries (put_entry eng i y) ≡ set (entries eng) i y
  entries-put_entry i x y got =
      take-set_lt eng.index_count eng.index i y
        (omega (arith, get_elem?_bound (entries eng) i got, length-entries))

  -- A new event goes into the next cell.
  pub append_entry-IsValid :
      (e : IndexEntry)
      → eng.index_count < eng.max_index_entries
      → eng.next_file_index + 1 < 2 ^ 32
      → e.file_index ≡ eng.next_file_index
      → first_where (is_live e.event_id) (entries eng) ≡ none
      → IsValid (append_entry eng e)
  unfolding append_entry count_where
  append_entry-IsValid e room space number absent =
      let grown = entries-append_entry e room in
      let step : (eng.next_file_index + 1) % 2 ^ 32 ≡ suc eng.next_file_index = omega arith in
      record {
        ready = v.ready;
        size = length-set eng.index eng.index_count e ∙ v.size;
        small = v.small;
        fits = omega (arith, v.small);
        single = λ id.
            let before = v.single id in
            rw grown (elim (Bool-cases (is_live id e)) [
              | inr off ↦
                  omega (arith, count_where-append (is_live id) (entries eng) (e ∷ []), ap bit off)
              | inl on ↦
                  let same : e.event_id ≡ id = bytes_eq_sound e.event_id id (ground arith) in
                  let none_before =
                    first_where-none (is_live id) (entries eng)
                      (subst (λ k. first_where (is_live k) (entries eng) ≡ none) same absent) in
                  omega (
                    arith,
                    count_where-append (is_live id) (entries eng) (e ∷ []),
                    ap bit on,
                    none_before,
                  )
            ]);
        numbered =
            rw (grown, step)
              (Ascending-append 0 eng.next_file_index (entries eng) e v.numbered number);
        numbers = omega arith;
      }

  -- An entry of the index is flagged as deleted.
  pub put_entry-IsValid :
      (i : ℕ) (e : IndexEntry)
      → get_elem? (entries eng) i ≡ some e
      → IsValid (put_entry eng i (mark_deleted e))
  put_entry-IsValid i e got =
      let kept = entries-put_entry i e (mark_deleted e) got in
      record {
        ready = v.ready;
        size = length-set eng.index i (mark_deleted e) ∙ v.size;
        small = v.small;
        fits = v.fits;
        single = λ id. rw kept (
            omega (
              arith,
              count_where-set (is_live id) (entries eng) i e (mark_deleted e) got,
              ap bit (is_live-mark_deleted id e),
              v.single id,
            ));
        numbered = rw kept (
            Ascending-set 0 eng.next_file_index (entries eng) i e (mark_deleted e) got refl
              v.numbered);
        numbers = v.numbers;
      }

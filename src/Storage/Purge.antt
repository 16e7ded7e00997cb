-- ===== src/Storage/Purge.antt =====
-- `storage_purge_expired`: what it drops, and what it leaves.
use wisp_esp.Base.{
  ℕ, zero, suc, ◌+◌, ◌≤◌, ◌≡◌, ◌≢◌, refl, ap, ◌∙◌, inl, inr, Bool, true, false, not, ◌&&◌, Option,
  none, some, List, [], ◌∷◌, map, arith, length, take, All, Bool-cases, Option-cases, first_where,
  count_where, bit, if◌then◌else◌, to_u32, count_where-zero, All-first_where,
}
use wisp_esp.Protocol.{Bytes}
use wisp_esp.Storage.Types.{
  IndexEntry, Engine, entries, mark_deleted, path_of, FileSystem, FileLaws, Library, Nvs,
}
use wisp_esp.Storage.Ops.{is_live}
use wisp_esp.Storage.Sweep.{is_due, purge_loop, purge_locked, purge_expired}
use wisp_esp.Storage.Numbering.{Ascending, Ascending-from, path_of-ne}
use wisp_esp.Storage.Invariant.{IsValid, is_live-mark_deleted}
use wisp_esp.Storage.Content.{lookup, content, bytes_at}

-- What a purge at `now` makes of one entry.
abbrev pub swept : ℕ → IndexEntry → IndexEntry
swept now e = if is_due now e then mark_deleted e else e

is_due-mark_deleted : (now : ℕ) (e : IndexEntry) → is_due now (mark_deleted e) ≡ false
is_due-mark_deleted now e = ground arith

is_due-swept : (now : ℕ) (e : IndexEntry) → is_due now (swept now e) ≡ false
is_due-swept now e = elim (Bool-cases (is_due now e)) [
  | inl h ↦ rw h (is_due-mark_deleted now e)
  | inr h ↦ rw h h
]

file_index-swept : (now : ℕ) (e : IndexEntry) → (swept now e).file_index ≡ e.file_index
file_index-swept now e = elim (Bool-cases (is_due now e)) [ inl h ↦ rw h refl | inr h ↦ rw h refl ]

is_live-swept :
    (now : ℕ) (id : Bytes) (e : IndexEntry)
    → is_live id (swept now e) ≡ (is_live id e && not (is_due now e))
is_live-swept now id e = elim (Bool-cases (is_due now e)) [
  | inl h ↦ rw h (is_live-mark_deleted id e ∙ ground arith)
  | inr h ↦ rw h (ground arith)
]

count-swept :
    (now : ℕ) (id : Bytes) (es : List IndexEntry)
    → count_where (is_live id) (map (swept now) es) ≤ count_where (is_live id) es
unfolding count_where
count-swept now id [] = omega arith
count-swept now id (e ∷ es) = elim (Bool-cases (is_due now e)) [
  | inl h ↦ rw h (omega (arith, count-swept now id es, ap bit (is_live-mark_deleted id e)))
  | inr h ↦ rw h (omega (arith, count-swept now id es))
]

Ascending-swept :
    (now lo hi : ℕ) (es : List IndexEntry)
    → Ascending lo hi es
    → Ascending lo hi (map (swept now) es)
Ascending-swept now lo hi [] h = h
Ascending-swept now lo hi (e ∷ es) h = (
  rw (file_index-swept now e) h.0,
  rw (file_index-swept now e) (Ascending-swept now (suc e.file_index) hi es h.1),
)

none_due : (now : ℕ) (es : List IndexEntry) → count_where (is_due now) (map (swept now) es) ≡ 0
unfolding count_where
none_due now [] = refl
none_due now (e ∷ es) = omega (arith, ap bit (is_due-swept now e), none_due now es)

-- The entry that an identifier leads to stays, unless it is due.
abbrev pub unless_due : ℕ → Option IndexEntry → Option IndexEntry
unless_due now none = none
unless_due now (some e) = if is_due now e then none else some e

tally : (due : Bool) (p c : ℕ) → p ≡ c → (if due then p + 1 else p) ≡ bit due + c
tally due p c h = ground arith

module _ (fs : FileSystem) (now : ℕ) where
  -- The loop over an array maps `swept` over the cells in use, keeps the others, and counts.
  purge_loop-cells :
      (count : ℕ) (es : List IndexEntry) (f : fs.Files)
      → (take count (purge_loop fs now count es f).0 ≡ map (swept now) (take count es))
        × (length (purge_loop fs now count es f).0 ≡ length es)
        × ((purge_loop fs now count es f).2 ≡ count_where (is_due now) (take count es))
  unfolding purge_loop count_where
  purge_loop-cells zero es f = (refl, refl, refl)
  purge_loop-cells (suc count) [] f = (refl, refl, refl)
  purge_loop-cells (suc count) (e ∷ es) f =
      let f' = if is_due now e then fs.unlink (path_of e) f else f in
      let (cells, size, purged) = purge_loop-cells count es f' in
      (rw cells refl, rw size refl, tally (is_due now e) _ _ purged)

  -- The loop unlinks nothing but the files of the entries that are due.
  purge_loop-files :
      (laws : FileLaws fs) (x : IndexEntry) (count : ℕ) (es : List IndexEntry) (f : fs.Files)
      → All (λ e. is_due now e ≡ true → e.file_index ≢ x.file_index) (take count es)
      → fs.read (path_of x) (purge_loop fs now count es f).1 ≡ fs.read (path_of x) f
  unfolding purge_loop
  purge_loop-files laws x zero es f h = refl
  purge_loop-files laws x (suc count) [] f h = refl
  purge_loop-files laws x (suc count) (e ∷ es) f h =
      purge_loop-files laws x count es (if is_due now e then fs.unlink (path_of e) f else f) h.1
      ∙ elim (Bool-cases (is_due now e)) [
        | inl due ↦ rw due (laws.unlink_other (path_of e) (path_of x) f (path_of-ne e x (h.0 due)))
        | inr kept ↦ rw kept refl
      ]

-- An entry that is found and not due has another file than every entry that is.
pub apart :
    (now lo hi : ℕ) (es : List IndexEntry) (p : IndexEntry → Bool) (x : IndexEntry)
    → Ascending lo hi es
    → first_where p es ≡ some x
    → is_due now x ≡ false
    → All (λ e. is_due now e ≡ true → e.file_index ≢ x.file_index) es
unfolding first_where
apart now lo hi [] p x h found off = tt
apart now lo hi (z ∷ es) p x h found off =
    let later = Ascending-from (suc z.file_index) hi es h.1 in
    elim (Bool-cases (p z)) [
      | inl hit ↦
          let same : z ≡ x = ground arith in
          (
            λ due. absurd (let off' : is_due now z ≡ false = rw same off in cc),
            above z x same es later,
          )
      | inr miss ↦
          let found' : first_where p es ≡ some x = ground arith in
          let more = All-first_where (λ k. suc z.file_index ≤ k.file_index) p es x later found' in
          (
            λ due number. absurd (omega arith),
            apart now (suc z.file_index) hi es p x h.1 found' off,
          )
    ]
  where
    above :
        (z x : IndexEntry)
        → z ≡ x
        → (xs : List IndexEntry) → All (λ k. suc z.file_index ≤ k.file_index) xs
        → All (λ e. is_due now e ≡ true → e.file_index ≢ x.file_index) xs
    above z x same [] k = tt
    above z x same (y ∷ ys) k = (
      λ due number.
          let low = k.0 in absurd (omega (arith, ap (λ (i : IndexEntry). i.file_index) same)),
      above z x same ys k.1,
    )

first_where-swept :
    (now : ℕ) (id : Bytes) (es : List IndexEntry)
    → count_where (is_live id) es ≤ 1
    → first_where (is_live id) (map (swept now) es) ≡ unless_due now (first_where (is_live id) es)
unfolding first_where count_where
first_where-swept now id [] h = refl
first_where-swept now id (e ∷ es) h = elim (Bool-cases (is_live id e)) [
  | inr off ↦
      let still : is_live id (swept now e) ≡ false = is_live-swept now id e ∙ rw off refl in
      rw (still, off) (first_where-swept now id es (omega (arith, ap bit off)))
  | inl on ↦ elim (Bool-cases (is_due now e)) [
    | inr kept ↦ rw kept (rw on (rw kept refl))
    | inl due ↦
        let none_left =
          count_where-zero (is_live id) (map (swept now) es)
            (omega (arith, ap bit on, count-swept now id es)) in
        rw due (rw (is_live-mark_deleted id e, on) (rw due none_left))
  ]
]

module _ (lib : Library) (fs : FileSystem) (nvs : Nvs) (eng : Engine) (time : ℕ) (f : fs.Files)
    (n : nvs.Store) (v : IsValid eng) where
  unlocked : purge_expired fs nvs eng time f n ≡ purge_locked fs nvs eng time f n
  unfolding purge_expired
  unlocked = let h = v.ready in ground arith

  purge_locked-entries :
      entries (purge_locked fs nvs eng time f n).1 ≡ map (swept (to_u32 time)) (entries eng)
  unfolding purge_locked
  purge_locked-entries = (purge_loop-cells fs (to_u32 time) eng.index_count eng.index f).0

  purge_locked-IsValid : IsValid (purge_locked fs nvs eng time f n).1
  unfolding purge_locked
  purge_locked-IsValid =
      let now = to_u32 time in
      let (cells, size, purged) = purge_loop-cells fs now eng.index_count eng.index f in
      record {
        ready = v.ready;
        size = size ∙ v.size;
        small = v.small;
        fits = v.fits;
        single = λ id. rw cells (omega (arith, count-swept now id (entries eng), v.single id));
        numbered = rw cells (Ascending-swept now 0 eng.next_file_index (entries eng) v.numbered);
        numbers = v.numbers;
      }

  -- `storage_purge_expired` keeps a valid index valid.
  pub purge_expired-IsValid : IsValid (purge_expired fs nvs eng time f n).1
  purge_expired-IsValid = rw unlocked purge_locked-IsValid

  -- `storage_purge_expired` on a valid engine returns the number of entries that are live and
  -- expired, and none is left.
  pub purge_expired_count :
      ((purge_expired fs nvs eng time f n).0 ≡ count_where (is_due (to_u32 time)) (entries eng))
      × (count_where (is_due (to_u32 time)) (entries (purge_expired fs nvs eng time f n).1) ≡ 0)
  purge_expired_count =
      rw unlocked (purged, rw purge_locked-entries (none_due (to_u32 time) (entries eng)))
    where
      purged :
          (purge_locked fs nvs eng time f n).0 ≡ count_where (is_due (to_u32 time)) (entries eng)
      purged =
          unfold purge_locked in (purge_loop-cells fs (to_u32 time) eng.index_count eng.index f).2

  purge_locked-lookup :
      (id : Bytes)
      → lookup (purge_locked fs nvs eng time f n).1 id ≡ unless_due (to_u32 time) (lookup eng id)
  purge_locked-lookup id =
      rw purge_locked-entries (first_where-swept (to_u32 time) id (entries eng) (v.single id))

  purge_locked-read :
      (laws : FileLaws fs) (id : Bytes) (x : IndexEntry)
      → lookup eng id ≡ some x
      → is_due (to_u32 time) x ≡ false
      → fs.read (path_of x) (purge_locked fs nvs eng time f n).2 ≡ fs.read (path_of x) f
  unfolding purge_locked
  purge_locked-read laws id x found off =
      purge_loop-files fs (to_u32 time) laws x eng.index_count eng.index f (
        apart (to_u32 time) 0 eng.next_file_index (entries eng) (is_live id) x v.numbered found off)

  -- After `storage_purge_expired` on a valid engine exactly the expired events are gone from the
  -- dictionary, and each other event reads as before, on a file system that keeps its laws.
  pub purge_expired-content :
      (laws : FileLaws fs) (id : Bytes)
      → let out = purge_expired fs nvs eng time f n in
        content lib fs laws out.1 out.2 id
        ≡ bytes_at lib fs laws (unless_due (to_u32 time) (lookup eng id)) f
  purge_expired-content laws id = rw unlocked (
      rw (purge_locked-lookup id) (elim (Option-cases (lookup eng id)) [
        | inl e ↦ rw e refl
        | inr (x, found) ↦ elim (Bool-cases (is_due (to_u32 time) x)) [
          | inl due ↦ rw found (rw due refl)
          | inr off ↦ rw found (rw off (purge_locked-read laws id x found off))
        ]
      ]))

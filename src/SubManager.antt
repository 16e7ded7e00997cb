-- ===== src/SubManager.antt =====
-- main/sub_manager.h and main/sub_manager.c: who is subscribed to what. Each operation runs under
-- the manager's mutex, so a call is one step. The array of filters of a subscription and its
-- `filter_count` are one list. The first `uint8_t` counts of slots stay below 65.
pub mod Memory
pub mod Copy
pub mod Invariant
pub mod Paths
pub mod Ownership
pub mod RemoveAll
pub mod View
pub mod Matching
pub mod Connections
pub mod Destroy
mod Tests
use wisp_esp.Base.{
  ℕ, ◌+◌, ◌-◌, ◌%◌, ◌^◌, Bool, true, false, not, ◌&&◌, List, [], ◌∷◌, Option, none, some, arith,
  leb, ltb, ◌==◌, if◌then◌else◌, bytes_eq, to_u16, replicate, set, take, find_entry, count_where,
}
use wisp_esp.Protocol.{
  Text, Filter, Event, RelayError, relay_ok, out_of_memory, too_many_filters,
  invalid_subscription_id,
}
use Memory.{Mem, free_filters, copy_filters}

abbrev pub max_total : ℕ
max_total = 64

abbrev pub max_per_conn : ℕ
max_per_conn = 8

abbrev pub max_filters : ℕ
max_filters = 4

abbrev pub max_id_len : ℕ
max_id_len = 64

pub record Subscription : Type 0 where
  pub sub_id : Text
  pub conn_fd : ℕ
  pub filters : List Filter
  pub events_sent : ℕ
  pub active : Bool

pub record SubManager : Type 0 where
  pub subs : List Subscription
  pub active_count : ℕ
  pub lock : Bool

pub record MatchEntry : Type 0 where
  pub match_fd : ℕ
  pub match_id : Text

-- `memset` to zero.
abbrev pub zero_sub : Subscription
zero_sub = record { sub_id = []; conn_fd = 0; filters = []; events_sent = 0; active = false }

-- `sub_manager_init`
unfoldable pub init : Bool → SubManager
init lock = record { subs = replicate max_total zero_sub; active_count = 0; lock = lock }

-- The tests of `sub_manager_find`, of the counting loops and of `find_free_slot`.
abbrev pub on_conn : ℕ → Subscription → Bool
on_conn fd s = s.active && (s.conn_fd == fd)

abbrev pub is_sub : ℕ → Text → Subscription → Bool
is_sub fd id s = s.active && (s.conn_fd == fd) && bytes_eq s.sub_id id

abbrev pub is_free : Subscription → Bool
is_free s = not s.active

-- `uint16_t` steps of `active_count`.
abbrev pub incr16 : ℕ → ℕ
incr16 n = to_u16 (n + 1)

abbrev pub decr16 : ℕ → ℕ
decr16 n = to_u16 (n + 2 ^ 16 - 1)

-- `strncpy` into the zeroed field, and the final zero.
abbrev pub new_sub : ℕ → Text → List Filter → Subscription
new_sub fd id filters = record {
  sub_id = take max_id_len id;
  conn_fd = fd;
  filters = filters;
  events_sent = 0;
  active = true;
}

abbrev pub refiltered : Subscription → List Filter → Subscription
refiltered s filters = record s { filters = filters; events_sent = 0 }

abbrev pub with_slot : SubManager → ℕ → Subscription → SubManager
with_slot mgr i s = record mgr { subs = set mgr.subs i s }

-- `sub_manager_count`; the count is a `uint8_t`.
pub count : SubManager → ℕ → ℕ
count mgr fd = count_where (on_conn fd) mgr.subs % 2 ^ 8

module _ (grants : ℕ → Bool) (filter_free : Filter → Mem → Mem) where
  -- The branch of `sub_manager_add` for an existing subscription.
  pub replace : SubManager → ℕ → Subscription → List Filter → Mem → RelayError × SubManager × Mem
  replace mgr i s filters m =
      let (copies, m') =
        copy_filters grants filter_free filters [] (free_filters grants filter_free s.filters m) in
      elim copies [
        | none ↦ (out_of_memory, with_slot mgr i (refiltered s []), m')
        | some fs ↦ (relay_ok, with_slot mgr i (refiltered s fs), m')
      ]

  -- The branch of `sub_manager_add` for a new subscription, in the free slot `i`.
  pub insert : SubManager → ℕ → ℕ → Text → List Filter → Mem → RelayError × SubManager × Mem
  insert mgr i fd id filters m =
      let (copies, m') = copy_filters grants filter_free filters [] m in
      elim copies [
        | none ↦ (out_of_memory, with_slot mgr i zero_sub, m')
        | some fs ↦ (
          relay_ok,
          record mgr {
            subs = set mgr.subs i (new_sub fd id fs);
            active_count = incr16 mgr.active_count;
          },
          m',
        )
      ]

  -- `sub_manager_add`
  pub add : SubManager → ℕ → Text → List Filter → Mem → RelayError × SubManager × Mem
  add mgr fd id filters m = elim (find_entry (is_sub fd id) mgr.subs) [
    | some (i, s) ↦ replace mgr i s (take max_filters filters) m
    | none ↦
        if leb max_per_conn (count_where (on_conn fd) mgr.subs % 2 ^ 8)
        then (too_many_filters, mgr, m)
        else (elim (find_entry is_free mgr.subs) [
          | none ↦ (out_of_memory, mgr, m)
          | some (i, old) ↦ insert mgr i fd id (take max_filters filters) m
        ])
  ]

  -- `sub_manager_remove`; `clear_subscription` frees the filters and zeroes the slot.
  pub remove : SubManager → ℕ → Text → Mem → RelayError × SubManager × Mem
  remove mgr fd id m = elim (find_entry (is_sub fd id) mgr.subs) [
    | none ↦ (invalid_subscription_id, mgr, m)
    | some (i, s) ↦ (
      relay_ok,
      record mgr { subs = set mgr.subs i zero_sub; active_count = decr16 mgr.active_count },
      free_filters grants filter_free s.filters m,
    )
  ]

  -- The loop of `sub_manager_remove_all` over the slots.
  pub remove_loop : ℕ → List Subscription → ℕ → Mem → List Subscription × ℕ × Mem
  remove_loop fd [] active m = ([], active, m)
  remove_loop fd (s ∷ ss) active m =
      let hit = on_conn fd s in
      let (ss', active', m') =
        remove_loop fd ss (if hit then decr16 active else active)
          (if hit then free_filters grants filter_free s.filters m else m) in
      ((if hit then zero_sub else s) ∷ ss', active', m')

  -- `sub_manager_remove_all`
  pub remove_all : SubManager → ℕ → Mem → SubManager × Mem
  remove_all mgr fd m =
      let (subs, active, m') = remove_loop fd mgr.subs mgr.active_count m in
      (record mgr { subs = subs; active_count = active }, m')

  -- The loop of `sub_manager_destroy`, which leaves `active_count` alone.
  pub destroy_loop : List Subscription → Mem → List Subscription × Mem
  destroy_loop [] m = ([], m)
  destroy_loop (s ∷ ss) m =
      let (ss', m') =
        destroy_loop ss (if s.active then free_filters grants filter_free s.filters m else m) in
      ((if s.active then zero_sub else s) ∷ ss', m')

  -- `sub_manager_destroy`: that loop, and the mutex is deleted.
  unfoldable pub destroy : SubManager → Mem → SubManager × Mem
  destroy mgr m =
      let (ss, m') = destroy_loop mgr.subs m in (record mgr { subs = ss; lock = false }, m')

-- `sub_manager_match`: the entries that the loop writes, `count` of them. The library's
-- `nostr_filters_match` tells whether any filter of a list matches.
pub match_loop : (List Filter → Event → Bool) → List Subscription → Event → List MatchEntry
match_loop filters_match [] e = []
match_loop filters_match (s ∷ ss) e =
    let rest = match_loop filters_match ss e in
    if s.active && filters_match s.filters e
    then record { match_fd = s.conn_fd; match_id = s.sub_id } ∷ rest
    else rest

abbrev pub matching : (List Filter → Event → Bool) → SubManager → Event → List MatchEntry
matching filters_match mgr e = match_loop filters_match mgr.subs e

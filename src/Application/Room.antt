-- ===== src/Application/Room.antt =====
-- How the tables of main/rate_limiter.c and main/sub_manager.c fit that of main/ws_server.c: in a
-- sound relay neither runs out of slots.
use wisp_esp.Base.{
  ℕ, ◌≤◌, ◌<◌, ◌≡◌, refl, ◌∙◌, inl, inr, true, Option, none, some, arith, List, count_where,
  find_entry-none, first_where-none, count_where-le_length, Option-cases,
}
use wisp_esp.Base.Capacity.{spare-slot, spare-slot_lt}
use wisp_esp.Protocol.{Text, Filter, relay_ok}
use wisp_esp.RateLimiter
use wisp_esp.RateLimiter.{RateBucket, RateConfig, RateType, new_bucket, seconds, check}
use wisp_esp.RateLimiter.View.{bucket_of, spare, grant, spec_check, check-Refines}
use wisp_esp.SubManager
use wisp_esp.SubManager.{Subscription, max_per_conn, add}
use wisp_esp.SubManager.Connections.{subs_of}
use wisp_esp.SubManager.Paths.{
  Added, replaced, emptied, refused, no_slot, inserted, unallocated, add-Added, Out,
}
use wisp_esp.WsServer.{Connection}
use wisp_esp.WsServer.Invariant.{is_active, IsOpen}
use wisp_esp.Relay.{Platform, Relay}
use wisp_esp.Application.Handling.{Laws}
use wisp_esp.Application.Invariant.{IsSound}

-- The bucket that a check works on where one is spare.
abbrev pub own_or_new : ℕ → ℕ → Option RateBucket → RateBucket
own_or_new fd m none = new_bucket fd m
own_or_new fd m (some b) = b

found_or_new :
    (c : RateConfig) (fd : ℕ) (own : Option RateBucket) (old : RateBucket) (type : RateType)
    (m m' : ℕ)
    → (spec_check c fd own (some old) type m m').0
      ≡ (grant c (own_or_new fd m own) type (seconds m')).0
found_or_new c fd none old type m m' = refl
found_or_new c fd (some b) old type m m' = refl

module _ {p : Platform} (base : ℕ) (r : Relay p) (v : IsSound base r) where
  few_connections : count_where is_active r.server.connections ≤ 8
  few_connections =
      omega (arith, count_where-le_length is_active r.server.connections, v.server.size)

  -- A bucket is spare.
  spare_bucket : (b : RateBucket) × (spare r.limiter ≡ some b)
  spare_bucket =
      let free =
        spare-slot (λ (b : RateBucket). b.active) (λ (b : RateBucket). b.fd) is_active
          (λ (c : Connection). c.fd) 1 r.limiter.buckets r.server.connections
          (λ k. elim (v.tracked k) [
            | inl o ↦ inl o
            | inr f ↦ inr (first_where-none (RateLimiter.owns k) r.limiter.buckets f.bucket)
          ])
          v.working.buckets.single (omega (arith, few_connections, v.working.buckets.size)) in
      elim (Option-cases (spare r.limiter)) [
        | inr there ↦ there
        | inl gone ↦
            absurd
              (omega (arith, free, first_where-none RateLimiter.is_free r.limiter.buckets gone))
      ]

  spare_slot :
      (fd : ℕ)
      → IsOpen r.server fd
      → subs_of fd r.sub_manager < max_per_conn
      → 0 < count_where SubManager.is_free r.sub_manager.subs
  spare_slot fd here few =
      spare-slot_lt (λ (s : Subscription). s.active) (λ (s : Subscription). s.conn_fd) is_active
        (λ (c : Connection). c.fd) max_per_conn fd r.sub_manager.subs r.server.connections
        (λ k. elim (v.tracked k) [ inl o ↦ inl o | inr f ↦ inr f.subs ])
        v.working.table.valid.per_conn few here
        (omega (arith, few_connections, v.working.table.valid.size))

  -- In a sound relay `rate_limiter_check` refuses only by count: its answer is that of the
  -- connection's own bucket, or of a new one, and never that of a full table.
  pub check_has_room :
      (fd : ℕ) (type : RateType) (m m' : ℕ)
      → (check r.limiter fd type m m').0
        ≡ (grant r.limiter.config (own_or_new fd m (bucket_of r.limiter fd)) type (seconds m')).0
  check_has_room fd type m m' =
      let (old, there) = spare_bucket in
      (check-Refines r.limiter fd type m m').answer
      ∙ (rw there (found_or_new r.limiter.config fd (bucket_of r.limiter fd) old type m m'))

  module _ (laws : Laws p) where
    Added-ok :
        (fd : ℕ) (id : Text) (fs : List Filter) (out : Out)
        → IsOpen r.server fd
        → subs_of fd r.sub_manager < max_per_conn
        → ((n : ℕ) → p.grants n ≡ true)
        → Added p.grants r.sub_manager fd id fs r.memory out
        → out.0 ≡ relay_ok
    Added-ok fd id fs out here few all (replaced i s e ok t l) = ok
    Added-ok fd id fs out here few all (emptied i s n e denied o t l) =
        absurd (let yes = all n in cc)
    Added-ok fd id fs out here few all (refused e full o) = absurd (omega (arith, few, full))
    Added-ok fd id fs out here few all (no_slot e room none_free o) =
        let free = spare_slot fd here few in
        absurd (
          omega (
            arith,
            free,
            first_where-none SubManager.is_free r.sub_manager.subs
                (find_entry-none SubManager.is_free r.sub_manager.subs none_free),
          ))
    Added-ok fd id fs out here few all (inserted i old e room f ok t l) = ok
    Added-ok fd id fs out here few all (unallocated i old n e room f denied o t l) =
        absurd (let yes = all n in cc)

    -- In a sound relay `sub_manager_add` never lacks a slot: where every allocation succeeds, it
    -- accepts any subscription of an open connection that has fewer than eight.
    pub add_has_room :
        (fd : ℕ) (id : Text) (fs : List Filter)
        → IsOpen r.server fd
        → subs_of fd r.sub_manager < max_per_conn
        → ((n : ℕ) → p.grants n ≡ true)
        → (add p.grants p.filter_free r.sub_manager fd id fs r.memory).0 ≡ relay_ok
    add_has_room fd id fs here few all =
        Added-ok fd id fs (add p.grants p.filter_free r.sub_manager fd id fs r.memory) here few all
          (add-Added p.grants p.filter_free laws.frees base r.sub_manager r.memory v.working.table
            fd id fs)

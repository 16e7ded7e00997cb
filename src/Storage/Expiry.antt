-- ===== src/Storage/Expiry.antt =====
-- `storage_save_event` of main/storage_engine.c: when an event expires.
use wisp_esp.Base.{
  ℕ, suc, ◌*◌, ◌^◌, ◌<◌, ◌≡◌, refl, false, ◌&&◌, arith, ltb, if◌then◌else◌, to_u32, add32,
}
use wisp_esp.Base.Int.{ℤ, pos, negsuc, is_pos, wrap}
use wisp_esp.Protocol.{Event}
use wisp_esp.Storage.Types.{Engine, Library}
use wisp_esp.Storage.Ops.{expiry, new_entry}
use wisp_esp.Storage.Sweep.{is_expired}
use Prim.Native.Nat.{min}

-- The time after which an event is to be dropped, without a bound on numbers.
abbrev pub intended : ℤ → ℕ → ℕ
intended (pos t) limit = if ltb 0 t then min t limit else limit
intended (negsuc t) limit = limit

expiry_at :
    (tag : ℤ) (limit : ℕ)
    → (t : ℕ) → limit < 2 ^ 32
    → tag ≡ pos t
    → t < 2 ^ 32
    → (if is_pos tag && ltb (wrap 32 tag) limit then wrap 32 tag else limit) ≡ intended tag limit
expiry_at (pos s) limit t small e h = let same : s ≡ t = cc in ground arith
expiry_at (negsuc s) limit t small e h = refl

-- A tag that is a positive multiple of 2 ^ 32 seconds is cut to zero, which stands for "never": as
-- long as the default time is not zero, the test of the purge and of the query never finds the event
-- expired.
pub expiry_never :
    (lib : Library) (eng : Engine) (ev : Event) (now k : ℕ)
    → lib.get_expiration ev ≡ pos (2 ^ 32 * suc k)
    → 0 < add32 (to_u32 now) eng.default_ttl_sec
    → (time : ℕ) → is_expired time (new_entry lib eng ev now) ≡ false
unfolding new_entry expiry
expiry_never lib eng ev now k tag some_time time = rw tag (ground arith)

-- ===== src/Application/Working.antt =====
-- The invariant of the objects that a message of one connection changes, and what each function
-- between main/main.c and them leaves alone.
use wisp_esp.Base.{ℕ, ◌≤◌, ◌≡◌, ◌≢◌, refl, ◌∙◌, true, arith}
use wisp_esp.RateLimiter
use wisp_esp.RateLimiter.View.{bucket_of}
use wisp_esp.RateLimiter.Invariant
use wisp_esp.SubManager.Invariant.{Owns}
use wisp_esp.SubManager.Connections.{subs_of}
use wisp_esp.Storage.Invariant.{IsValid}
use wisp_esp.Router.{RelayMsg}
use wisp_esp.Relay.{Platform, Relay, emit}

-- The objects are there and valid. `base` is the live memory that is not the table's.
pub record IsWorking {p : Platform} (base : ℕ) (r : Relay p) : Type 0 where
  pub table : Owns base r.sub_manager r.memory
  pub index : IsValid r.store.engine
  pub buckets : RateLimiter.Invariant.IsValid r.limiter
  pub has_subs : r.has_subs ≡ true
  pub has_storage : r.has_storage ≡ true
  pub has_limiter : r.has_limiter ≡ true

-- What a message of `fd` may do: the server's table stays, and no other connection gets a bucket or
-- a subscription.
pub record Handled {p : Platform} (base fd : ℕ) (r r' : Relay p) : Type 0 where
  pub working : IsWorking base r'
  pub server : r'.server ≡ r.server
  pub buckets : (fd' : ℕ) → fd' ≢ fd → bucket_of r'.limiter fd' ≡ bucket_of r.limiter fd'
  pub subs : (fd' : ℕ) → fd' ≢ fd → subs_of fd' r'.sub_manager ≤ subs_of fd' r.sub_manager

module _ {p : Platform} (base fd : ℕ) where
  pub Handled-refl : (r : Relay p) → IsWorking base r → Handled base fd r r
  Handled-refl r w = record {
    working = w;
    server = refl;
    buckets = λ fd' ne. refl;
    subs = λ fd' ne. omega arith;
  }

  pub Handled-trans :
      {a b c : Relay p} → Handled base fd a b → Handled base fd b c → Handled base fd a c
  Handled-trans h k = record {
    working = k.working;
    server = k.server ∙ h.server;
    buckets = λ fd' ne. k.buckets fd' ne ∙ h.buckets fd' ne;
    subs = λ fd' ne. omega (arith, k.subs fd' ne, h.subs fd' ne);
  }

  pub emit-Handled :
      (r r' : Relay p) (fd' : ℕ) (msg : RelayMsg)
      → Handled base fd r r'
      → Handled base fd r (emit r' fd' msg)
  emit-Handled r r' fd' msg h = record {
    working = record {
      table = h.working.table;
      index = h.working.index;
      buckets = h.working.buckets;
      has_subs = h.working.has_subs;
      has_storage = h.working.has_storage;
      has_limiter = h.working.has_limiter;
    };
    server = h.server;
    buckets = h.buckets;
    subs = h.subs;
  }

-- ===== src/Sync/Reconnect/Settings.antt =====
-- src/mongo-sync.c: what a connection keeps when it is made anew.
use libmongo_client.Base.{ℕ, ◌≡◌, refl, Bool, List, ◌⊎◌, inl, inr}
use libmongo_client.Base.Int.{ℤ}
use libmongo_client.Base.Errno.{Errno}
use libmongo_client.Base.Run.{Run, gives, stops, crashes, loops, ◌>>=◌}
use libmongo_client.Sync.Connection.{SyncConn, Credentials}

-- What the caller has set on a connection.
pub record Settings : Type 0 where
  pub slaveok : Bool
  pub safe_mode : Bool
  pub auto_reconnect : Bool
  pub max_insert_size : ℤ
  pub seeds : List (List ℕ)
  pub auth : Credentials
  pub has_cache : Bool

abbrev pub settings : SyncConn → Settings
settings c = record {
  slaveok = c.slaveok;
  safe_mode = c.safe_mode;
  auto_reconnect = c.auto_reconnect;
  max_insert_size = c.max_insert_size;
  seeds = c.rs.seeds;
  auth = c.auth;
  has_cache = c.has_cache;
}

module _ {W : Type 0} where
  -- The connection that a call leaves, where it returns or fails, has these settings.
  abbrev pub Keeps {ℓ} : {A : Type ℓ} → Settings → Run (SyncConn × W) A → Type 0
  Keeps s (gives a (c, w)) = settings c ≡ s
  Keeps s (stops e (c, w)) = settings c ≡ s
  Keeps s crashes = Unit
  Keeps s loops = Unit

  pub Keeps-bind {ℓ κ} :
      {A : Type ℓ} {B : Type κ} (s : Settings) (r : Run (SyncConn × W) A)
      (f : A → SyncConn × W → Run (SyncConn × W) B)
      → Keeps s r
      → ((a : A) (c : SyncConn) (w : W) → settings c ≡ s → Keeps s (f a (c, w)))
      → Keeps s (r >>= f)
  Keeps-bind s (gives a (c, w)) f k h = h a c w k
  Keeps-bind s (stops e (c, w)) f k h = k
  Keeps-bind s crashes f k h = tt
  Keeps-bind s loops f k h = tt

  -- How a call that keeps them ends.
  pub Keeps-cases {ℓ} :
      {A : Type ℓ} (s : Settings) (r : Run (SyncConn × W) A)
      → Keeps s r
      → ((a : A) × (c : SyncConn) × (w : W) × (r ≡ gives a (c, w)) × (settings c ≡ s))
        ⊎ (((e : Errno) × (c : SyncConn) × (w : W) × (r ≡ stops e (c, w)) × (settings c ≡ s))
            ⊎ ((r ≡ crashes) ⊎ (r ≡ loops)))
  Keeps-cases s (gives a (c, w)) k = inl (a, c, w, refl, k)
  Keeps-cases s (stops e (c, w)) k = inr (inl (e, c, w, refl, k))
  Keeps-cases s crashes k = inr (inr (inl refl))
  Keeps-cases s loops k = inr (inr (inr refl))

  -- Two ways to go on that agree where the settings are kept.
  pub Keeps-bind_ap {ℓ κ} :
      {A : Type ℓ} {B : Type κ} (s : Settings) (r : Run (SyncConn × W) A)
      (f g : A → SyncConn × W → Run (SyncConn × W) B)
      → Keeps s r
      → ((a : A) (c : SyncConn) (w : W) → settings c ≡ s → f a (c, w) ≡ g a (c, w))
      → (r >>= f) ≡ (r >>= g)
  Keeps-bind_ap s (gives a (c, w)) f g k h = h a c w k
  Keeps-bind_ap s (stops e (c, w)) f g k h = refl
  Keeps-bind_ap s crashes f g k h = refl
  Keeps-bind_ap s loops f g k h = refl

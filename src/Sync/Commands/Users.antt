-- ===== src/Sync/Commands/Users.antt =====
-- src/mongo-sync.c: the users of a database. The connection is not NULL; `md5` is GLib's checksum of
-- the bytes, in hexadecimal.
use libmongo_client.Base.{ℕ, Bool, true, Option, none, some, List, [], ◌∷◌, ◌++◌}
use libmongo_client.Base.Errno.{Errno, einval}
use libmongo_client.Base.Result.{Result, ok, fails, ◌>>=◌}
use libmongo_client.Base.Run.{Run, stops, crashes, loops}
use libmongo_client.Bson.Object.{Bson, finish}
use libmongo_client.Bson.Append.{append_array}
use libmongo_client.Bson.Build.{Args, build, build_full}
use libmongo_client.Client.{Net}
use libmongo_client.Sync.Connection.{SyncConn}
use libmongo_client.Sync.Nonce.{pass_digest, string_arg, key_user}
use libmongo_client.Sync.Commands.{cmd_update, cmd_delete}

-- ".system.users"
abbrev pub users_suffix : List ℕ
users_suffix =
    b'.' ∷ b's' ∷ b'y' ∷ b's' ∷ b't' ∷ b'e' ∷ b'm' ∷ b'.' ∷ b'u' ∷ b's' ∷ b'e' ∷ b'r' ∷ b's' ∷ []

-- "$set" and "pwd"
abbrev pub key_set : List ℕ
key_set = b'$' ∷ b's' ∷ b'e' ∷ b't' ∷ []

abbrev pub key_pwd : List ℕ
key_pwd = b'p' ∷ b'w' ∷ b'd' ∷ []

abbrev pub key_roles : List ℕ
key_roles = b'r' ∷ b'o' ∷ b'l' ∷ b'e' ∷ b's' ∷ []

-- MONGO_WIRE_FLAG_UPDATE_UPSERT
abbrev pub flag_upsert : ℕ
flag_upsert = 1

unfoldable pub user_selector : List ℕ → Result (Option Bson)
user_selector user = build (string_arg key_user user) [] >>= λ s. ok (finish s).0

unfoldable pub user_update :
    (List ℕ → List ℕ) → List ℕ → List ℕ → Option Bson → Result (Option Bson)
unfolding pass_digest
user_update md5 user pw roles = build (string_arg key_pwd (pass_digest md5 user pw)) [] >>= λ d.
    build_full (record { name = some key_set; free_after = true; args = Args.document d }) []
    >>= λ u. ok (elim roles [
      | none ↦ (finish u).0
      | some r ↦ (finish (append_array u (some key_roles) (some r)).0).0
    ])

module _ {W : Type 0} (net : Net W) (junk : ℕ) (strerror : Errno → List ℕ) (md5 : List ℕ → List ℕ)
    (reconnect : Bool → SyncConn → W → Run (SyncConn × W) (Unit {0})) where
  -- What is done with a document, if it could be built.
  abbrev pub with_built :
      Result (Option Bson)
      → (Option Bson → Run (SyncConn × W) (Unit {0}))
      → Run (SyncConn × W) (Unit {0})
  with_built (ok d) f = f d
  with_built fails f = crashes
  with_built Result.fault f = crashes
  with_built Result.spins f = loops

  unfoldable pub cmd_user_add_with_roles :
      Option (List ℕ)
      → Option (List ℕ)
      → Option (List ℕ)
      → Option Bson
      → SyncConn
      → W
      → Run (SyncConn × W) (Unit {0})
  unfolding user_selector user_update
  cmd_user_add_with_roles none user pw roles c w = stops einval (c, w)
  cmd_user_add_with_roles (some db) none pw roles c w = stops einval (c, w)
  cmd_user_add_with_roles (some db) (some user) none roles c w = stops einval (c, w)
  cmd_user_add_with_roles (some db) (some user) (some pw) roles c w =
      with_built (user_selector user) λ s.
        with_built (user_update md5 user pw roles) λ u.
          cmd_update net junk strerror reconnect (some (db ++ users_suffix)) flag_upsert s u c w

  unfoldable pub cmd_user_add :
      Option (List ℕ)
      → Option (List ℕ)
      → Option (List ℕ)
      → SyncConn
      → W
      → Run (SyncConn × W) (Unit {0})
  unfolding cmd_user_add_with_roles
  cmd_user_add db user pw c w = cmd_user_add_with_roles db user pw none c w

  unfoldable pub cmd_user_remove :
      Option (List ℕ) → Option (List ℕ) → SyncConn → W → Run (SyncConn × W) (Unit {0})
  unfolding user_selector
  cmd_user_remove none user c w = stops einval (c, w)
  cmd_user_remove (some db) none c w = stops einval (c, w)
  cmd_user_remove (some db) (some user) c w =
      with_built (user_selector user)
        λ s. cmd_delete net junk strerror reconnect (some (db ++ users_suffix)) 0 s c w

-- ===== src/Sync/Authenticate.antt =====
-- src/mongo-sync.c: authenticating with the digest of a password. The connection is not NULL.
use libmongo_client.Base.{ℕ, Bool, false, Option, none, some, List}
use libmongo_client.Base.Errno.{einval, eproto, efault}
use libmongo_client.Base.Int.{pos}
use libmongo_client.Base.Run.{Run, gives, stops, ◌>>=◌, lift}
use libmongo_client.Client.{Net}
use libmongo_client.Sync.Connection.{SyncConn}
use libmongo_client.Sync.Master.{one_command, first_document}
use libmongo_client.Sync.Nonce.{key_getnonce, read_nonce, auth_command}
use libmongo_client.Sync.Send.{custom}

-- The credentials that the server took.
abbrev pub with_credentials : List ℕ → List ℕ → List ℕ → SyncConn → SyncConn
with_credentials db user pw c = record c {
  auth = record { db = some db; user = some user; pw = some pw };
}

module _ {W : Type 0} (net : Net W) (junk : ℕ) (md5 : List ℕ → List ℕ)
    (reconnect : Bool → SyncConn → W → Run (SyncConn × W) (Unit {0})) where
  -- With what the server sent as its nonce.
  unfoldable pub answer_nonce :
      List ℕ → List ℕ → List ℕ → List ℕ → SyncConn → W → Run (SyncConn × W) (Unit {0})
  unfolding auth_command
  answer_nonce db user pw nonce c w =
      -- the command can always be built
      lift efault (c, w) (auth_command md5 user pw nonce) >>= λ cmd (c1, w1).
      custom net junk reconnect false (some db) cmd c1 w1 >>= λ reply (c2, w2).
      gives tt (with_credentials db user pw c2, w2)

  -- All three strings are there.
  unfoldable pub authenticate_as :
      List ℕ → List ℕ → List ℕ → SyncConn → W → Run (SyncConn × W) (Unit {0})
  unfolding read_nonce answer_nonce one_command first_document
  authenticate_as db user pw c w =
      custom net junk reconnect false (some db) (one_command (pos 32) key_getnonce) c w
      >>= λ p (c1, w1). first_document net junk p c1 w1 >>= λ b (c2, w2).
          lift eproto (c2, w2) (read_nonce b) >>= λ nonce (c3, w3).
          answer_nonce db user pw nonce c3 w3

  unfoldable pub cmd_authenticate :
      Option (List ℕ)
      → Option (List ℕ)
      → Option (List ℕ)
      → SyncConn
      → W
      → Run (SyncConn × W) (Unit {0})
  unfolding authenticate_as
  cmd_authenticate none user pw c w = stops einval (c, w)
  cmd_authenticate (some db) none pw c w = stops einval (c, w)
  cmd_authenticate (some db) (some user) none c w = stops einval (c, w)
  cmd_authenticate (some db) (some user) (some pw) c w = authenticate_as db user pw c w

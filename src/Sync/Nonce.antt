-- ===== src/Sync/Nonce.antt =====
-- src/mongo-sync.c: the documents of the authentication.
use libmongo_client.Base.{ℕ, false, Option, some, List, [], ◌∷◌, ◌++◌}
use libmongo_client.Base.Int.{pos, negsuc}
use libmongo_client.Base.Result.{Result, ok, ◌>>=◌}
use libmongo_client.Bson.Object.{Bson, finish}
use libmongo_client.Bson.Cursor.{find}
use libmongo_client.Bson.Get.{get_string}
use libmongo_client.Bson.Build.{Arg, Args, build}
use libmongo_client.Sync.Reply.{strdup}

-- ":mongo:"
abbrev pub mongo_infix : List ℕ
mongo_infix = b':' ∷ b'm' ∷ b'o' ∷ b'n' ∷ b'g' ∷ b'o' ∷ b':' ∷ []

abbrev pub key_nonce : List ℕ
key_nonce = b'n' ∷ b'o' ∷ b'n' ∷ b'c' ∷ b'e' ∷ []

abbrev pub key_getnonce : List ℕ
key_getnonce = b'g' ∷ b'e' ∷ b't' ∷ key_nonce

abbrev pub key_authenticate : List ℕ
key_authenticate =
    b'a' ∷ b'u' ∷ b't' ∷ b'h' ∷ b'e' ∷ b'n' ∷ b't' ∷ b'i' ∷ b'c' ∷ b'a' ∷ b't' ∷ b'e' ∷ []

abbrev pub key_user : List ℕ
key_user = b'u' ∷ b's' ∷ b'e' ∷ b'r' ∷ []

abbrev pub key_key : List ℕ
key_key = b'k' ∷ b'e' ∷ b'y' ∷ []

-- `md5` is GLib's checksum of the bytes, in hexadecimal.
unfoldable pub pass_digest : (List ℕ → List ℕ) → List ℕ → List ℕ → List ℕ
pass_digest md5 user pw = md5 (user ++ (mongo_infix ++ pw))

-- The nonce of the first reply.
unfoldable pub read_nonce : Option Bson → Result (List ℕ)
unfolding strdup
read_nonce b = do c ← find b (some key_nonce); mem ← get_string (some c); strdup mem

abbrev pub string_arg : List ℕ → List ℕ → Arg
string_arg name s = record {
  name = some name;
  free_after = false;
  args = Args.string (some (s ++ 0 ∷ [])) (negsuc 0);
}

-- The second command, with the key made of the nonce, the user and the digest of the password.
unfoldable pub auth_command : (List ℕ → List ℕ) → List ℕ → List ℕ → List ℕ → Result (Option Bson)
unfolding pass_digest
auth_command md5 user pw nonce = do
  b ←
      build (record { name = some key_authenticate; free_after = false; args = Args.int32 (pos 1) })
        (string_arg key_user user
          ∷ string_arg key_nonce nonce
          ∷ string_arg key_key (md5 (nonce ++ (user ++ pass_digest md5 user pw)))
          ∷ [])
  ok ((finish b).0)

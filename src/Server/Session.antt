-- ===== src/Server/Session.antt =====
-- src/server/session.rs: the user of a connection and the database that its statements run in.
use srrdb.Prelude.{ℕ, Option, none, some, List}
use srrdb.Std.Text.{Text, codes}
use srrdb.Protocol.Auth.{Sha1, hash_native_password}

pub record User : Type 0 where
  pub name : Text
  pub password_hash : Option (List ℕ)

pub record Session : Type 0 where
  pub user : User
  pub database : Text

-- `User::new`
unfoldable pub new_user : Text → User
new_user name = record { name = name; password_hash = none }

-- `User::with_password`
unfoldable pub with_password : ⦃h : Sha1⦄ → Text → Text → User
with_password name password = record {
  name = name;
  password_hash = some (hash_native_password password);
}

-- `Session::new_with_user`
unfoldable pub new_with_user : User → Session
new_with_user user = record { user = user; database = codes "srrdb" }

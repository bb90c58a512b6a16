-- ===== src/Db/Repository.antt =====
-- pkg/db/interfaces.go: what the rest of the program uses of a database of type `S`.
use keet_agent.Prelude.{ℕ, List}
use keet_agent.Prelude.Result.{Result}
use keet_agent.Bytes.{Bytes}

-- What fails, without the text of the error.
pub data DbError : Type 0 where
  bucket_not_found feed_not_found block_not_found undecodable failed : DbError

pub record SwarmRepository (S : Type 0) : Type 0 where
  pub register_swarm : S → Bytes → Bytes → Result DbError S
  pub unregister_swarm : S → Bytes → Result DbError S
  pub get_active_swarms : S → Result DbError (List Bytes)

pub record BlockRepository (S : Type 0) : Type 0 where
  pub put_block : S → Bytes → ℕ → Bytes → Bytes → Result DbError S
  pub get_block : S → Bytes → ℕ → Result DbError (Bytes × Bytes)

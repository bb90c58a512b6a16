-- ===== src/Ipc/Client/Access.antt =====
-- The sessions of pkg/ipc/socket.go: who may have commands executed.
use keet_agent.Prelude.{
  Bool, true, false, ◌&&◌, not, List, [], ◌∷◌, some, contains, ◌≡◌, refl, ap, ◌∙◌, arith,
  Option-cases, Bool-cases, inl, inr, if◌then◌else◌,
}
use keet_agent.Bytes.{Bytes}
use keet_agent.Ipc.Client.{
  Request, refused, unauthorized, Gateway, Environment, ClientServices, is_empty, may_proceed,
  execute, followed, client_loop, handle_client,
}

may_proceed_authed : (ws : List Bytes) (key : Bytes) → may_proceed ws true key ≡ true
may_proceed_authed ws key = ground arith

may_proceed_first :
    (w : Bytes) (ws : List Bytes) (key : Bytes) (b : Bool)
    → (not (is_empty key) && contains (w ∷ ws) key) ≡ b
    → may_proceed (w ∷ ws) false key ≡ b
may_proceed_first w ws key true e = rw e refl
may_proceed_first w ws key false e = rw e refl

module _ {S B : Type 0} (sv : ClientServices S B) where
  -- An authenticated session does not look at the whitelist.
  client_loop-authed :
      (ws vs : List Bytes) (g : Gateway S B) (requests : List (Environment × Request))
      → client_loop sv ws g true requests ≡ client_loop sv vs g true requests
  unfolding client_loop
  client_loop-authed ws vs g [] = refl
  client_loop-authed ws vs g ((env, req) ∷ rest) =
      rw (client_loop, may_proceed_authed ws req.peer_key, may_proceed_authed vs req.peer_key)
        (elim (Option-cases (execute sv env g req)) [
          | inl stuck ↦ rw stuck refl
          | inr (h, done) ↦ elim (Bool-cases env.is_sent) [
            | inl sent ↦
                rw (done, sent) (ap (followed sv h) (client_loop-authed ws vs h.gateway rest))
            | inr lost ↦ rw (done, lost) refl
          ]
        ])

  client_loop_proceeds :
      (ws : List Bytes) (g : Gateway S B) (authed : Bool) (env : Environment) (req : Request)
      (rest : List (Environment × Request))
      → may_proceed ws authed req.peer_key ≡ true
      → client_loop sv ws g authed ((env, req) ∷ rest)
        ≡ client_loop sv ws g true ((env, req) ∷ rest)
  unfolding client_loop
  client_loop_proceeds ws g authed env req rest e =
      rw (client_loop, e, may_proceed_authed ws req.peer_key) refl

  -- With a whitelist that is not empty, a session whose first request has a key of the whitelist, which is
  -- not empty, goes on as without a whitelist, whatever keys the later requests have; any other session
  -- answers its first request with the error of an unauthorized client and ends there, with the gateway as
  -- it was and nothing else done.
  pub handle_client-whitelist :
      (w : Bytes) (ws : List Bytes) (g : Gateway S B) (env : Environment) (req : Request)
      (rest : List (Environment × Request))
      → handle_client sv (w ∷ ws) g ((env, req) ∷ rest) ≡ (
          if not (is_empty req.peer_key) && contains (w ∷ ws) req.peer_key
          then handle_client sv [] g ((env, req) ∷ rest)
          else some (record {
            gateway = g;
            responses = refused req.command unauthorized ∷ [];
            events = [];
          }))
  unfolding handle_client client_loop
  handle_client-whitelist w ws g env req rest =
      elim (Bool-cases (not (is_empty req.peer_key) && contains (w ∷ ws) req.peer_key)) [
        | inr other ↦ rw (other, client_loop) refl
        | inl known ↦ rw known (
            client_loop_proceeds (w ∷ ws) g false env req rest
              (may_proceed_first w ws req.peer_key true known)
            ∙ client_loop-authed (w ∷ ws) [] g ((env, req) ∷ rest))
      ]

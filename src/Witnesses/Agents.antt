-- ===== src/Witnesses/Agents.antt =====
-- Two agents, and a secret of 90 days.
use md_harness.Prelude.{◌≡◌, ◌↔◌, refl, ◌≤◌, ◌+◌, ◌*◌, ◌<◌, true, some, [], ◌∷◌, arith}
use md_harness.Effects.{return}
use md_harness.Json.{Json}
use md_harness.Security.Rotation.{
  SecretRotation, expiry, day, due, secret_status, rank, valid, expiring, expired,
  secret_status_lem,
}
use md_harness.Agents.Registry.{AgentProfile, agent_registry, payload, profile_from_mapping}
use md_harness.Agents.Registry.Profiles.{ValidProfile, profile_from_mapping-payload}
use md_harness.Agents.Registry.Selection.{Selects, select_lem}

abbrev coder : AgentProfile
coder = record {
  name = "coder";
  version = 1;
  instructions = "Write the code.";
  task_types = "feature" ∷ "bug" ∷ [];
  tools = "filesystem" ∷ "git" ∷ [];
  model = "small";
  max_steps = 8;
  enabled = true;
}

abbrev reviewer : AgentProfile
reviewer = record coder { name = "reviewer"; task_types = "review" ∷ [] }

two_agents : agent_registry (coder ∷ reviewer ∷ []) ≡ return (coder ∷ reviewer ∷ [])
unfolding agent_registry
two_agents = refl

select_lem_example : Selects (coder ∷ reviewer ∷ []) "review" (some "reviewer")
select_lem_example =
    select_lem (coder ∷ reviewer ∷ []) (coder ∷ reviewer ∷ []) "review" (some "reviewer") two_agents

profile_from_mapping-payload_example :
    (ValidProfile coder → profile_from_mapping (payload coder) ≡ return coder)
    × ((values : Json) → profile_from_mapping values ≡ return coder → ValidProfile coder)
profile_from_mapping-payload_example = profile_from_mapping-payload coder

abbrev token : SecretRotation
token = record { name = "token"; created_at = 1000; policy = record { max_age_days = 90 } }

secret_status_lem_example :
    ((secret_status token true 7000000 ≡ expired) ↔ (expiry token ≤ 7000000))
    × ((due token 7000000 ≡ true) ↔ (secret_status token true 7000000 ≡ expired))
    × ((secret_status token true 7000000 ≡ expiring)
        ↔ ((expiry token ≤ 7000000 + 14 * day) × (7000000 < expiry token)))
    × ((secret_status token true 7000000 ≡ valid) ↔ (7000000 + 14 * day < expiry token))
    × (rank (secret_status token true 7000000) ≤ rank (secret_status token true 8000000))
secret_status_lem_example = secret_status_lem token 7000000 8000000 (ground arith)

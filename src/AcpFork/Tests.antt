-- ===== src/AcpFork/Tests.antt =====
-- Fork support and fork points at concrete agents.
use openma_common.Common.{String, true, none, some, List, [], ◌∷◌, ◌≡◌, refl, map, String_discrete}
use openma_common.Common.Json.{obj, field, end, bool, num, natural, property}
use openma_common.Common.Maps.{get, set, has}
use openma_common.AcpFork.{
  AcpForkPoint, AcpForkSupportSource, fork_support, Version, at_least, strict_xyz_version,
  is_verified_message_fork_adapter, acp_fork_points_from_messages, message,
  inclusive_fork_capability_presence,
}
use openma_common.AcpFork.Laws.{points_exact, points_after}

abbrev two_alike : List (String × String)
two_alike = ("m1", "yes") ∷ ("m2", "no") ∷ ("m3", "yes") ∷ []

points_exact_example : acp_fork_points_from_messages two_alike ≡ points_after [] two_alike
points_exact_example = points_exact two_alike

occurrences :
    map (λ (p : AcpForkPoint). p.message_occurrence) (acp_fork_points_from_messages two_alike)
    ≡ 1 ∷ 1 ∷ 2 ∷ []
unfolding acp_fork_points_from_messages get set String_discrete
occurrences = refl

abbrev minor_behind : Version
minor_behind = (1, 9, 7)

abbrev codex_minimum : Version
codex_minimum = (1, 10, 0)

strict : strict_xyz_version "1.10.0" ≡ some codex_minimum
unfolding strict_xyz_version
strict = refl

no_prefix : strict_xyz_version "v1.10.0" ≡ none
unfolding strict_xyz_version
no_prefix = refl

no_leading_zero : strict_xyz_version "1.010.0" ≡ none
unfolding strict_xyz_version
no_leading_zero = refl

no_suffix : strict_xyz_version "1.10.0-rc" ≡ none
unfolding strict_xyz_version
no_suffix = refl

abbrev codex : AcpForkSupportSource
codex = record {
  agent_capabilities = some (record { fork = some (obj end); meta = none });
  agent_info = some (record { name = "codex-acp"; version = some "1.10.0" });
}

codex_forks : (fork_support (some codex)).level ≡ message
unfolding fork_support inclusive_fork_capability_presence is_verified_message_fork_adapter
    strict_xyz_version has String_discrete at_least
codex_forks = refl

advertised :
    (fork_support (
      some (record {
        agent_capabilities = some (record {
          fork = some (obj end);
          meta = some (
              obj (
                field "jetbrains"
                  (obj (
                    field "air"
                      (obj (
                        field "fork"
                          (obj
                            (field "version" (num (natural 1)) (field "inclusive" (bool true) end)))
                          end))
                      end))
                  end));
        });
        agent_info = none;
      }))).level
    ≡ message
unfolding fork_support inclusive_fork_capability_presence property
advertised = refl

strict_newer : strict_xyz_version "1.11.2" ≡ some (1, 11, 2)
unfolding strict_xyz_version
strict_newer = refl

codex_verified :
    is_verified_message_fork_adapter (some (record { name = "codex-acp"; version = some "1.10.0" }))
    ≡ true
unfolding is_verified_message_fork_adapter strict_xyz_version has String_discrete at_least
codex_verified = refl

is_newer : at_least (1, 11, 2) (1, 10, 0) ≡ true
unfolding at_least
is_newer = refl

-- ===== src/BuildSpec/Generator/Groups.antt =====
-- The groups of a flow (src/codebuild/buildspec-generator.service.ts).
use otto_handler.Prelude.{
  ◌≡◌, refl, sym, ap, ◌∙◌, inl, inr, Bool-cases, String, List, [], ◌∷◌, ◌++◌, filter, drop,
  append-nil, append_assoc, str_eq, eq_iff,
}
use otto_handler.Prelude.Maps.{Dictionary, lookup, insert, lookup-insert}
use otto_handler.BuildSpec.Types.{Node, BuildSpec}
use otto_handler.BuildSpec.Commands.{
  generate_build_commands, generate_test_commands, generate_notification_commands,
}
use otto_handler.BuildSpec.Generator.{
  or_none, group_into, group_nodes_by_type, push_each, with_tests, pre_build_of, utility_test_of,
  set_up, dockerfile_setup, first_build, first_post_build, docker_build, generate_build_spec,
}

-- The nodes of a group, in the order of the flow.
abbrev pub of_group : String → List Node → List Node
of_group type nodes = filter (λ node. str_eq node.group_type type) nodes

-- The commands of the nodes, one after the other.
unfoldable pub commands_of : (Node → List String) → List Node → List String
commands_of f [] = []
commands_of f (node ∷ nodes) = f node ++ commands_of f nodes

lookup-group_into :
    (type : String) (nodes : List Node) (grouped : Dictionary (List Node))
    → or_none (lookup type (group_into nodes grouped))
      ≡ or_none (lookup type grouped) ++ of_group type nodes
unfolding group_into
lookup-group_into type [] grouped = sym (append-nil (or_none (lookup type grouped)))
lookup-group_into type (node ∷ nodes) grouped =
    let rest = of_group type nodes in
    let added = or_none (lookup node.group_type grouped) ++ (node ∷ []) in
    let later = lookup-group_into type nodes (insert node.group_type added grouped) in
    let found = lookup-insert node.group_type type added grouped in
    elim (Bool-cases (str_eq node.group_type type)) [
      | inl e ↦
          rw (later, found, e)
            (ap (λ t. (or_none (lookup t grouped) ++ (node ∷ [])) ++ rest)
                ((eq_iff node.group_type type).0 e)
              ∙ append_assoc (or_none (lookup type grouped)) (node ∷ []) rest)
      | inr e ↦ rw (later, found, e) refl
    ]

push_each-commands_of :
    (f : Node → List String) (nodes : List Node) (commands : List String)
    → push_each f nodes commands ≡ commands ++ commands_of f nodes
unfolding push_each commands_of
push_each-commands_of f [] commands = sym (append-nil commands)
push_each-commands_of f (node ∷ nodes) commands =
    push_each-commands_of f nodes (commands ++ f node)
    ∙ append_assoc commands (f node) (commands_of f nodes)

-- The last phase before and after its tests.
abbrev pub opening : List String
opening = "echo \"=== POST_BUILD Phase ===\"" ∷ "echo Build completed on `date`" ∷ []

abbrev pub pushing : List String
pushing = drop 2 first_post_build

-- The tests under their title, or nothing.
test_block : List String → List String
test_block [] = []
test_block (test ∷ tests) = "echo \"=== Running Tests ===\"" ∷ test ∷ tests

with_tests-test_block :
    (tests notices : List String)
    → with_tests tests first_post_build ++ notices
      ≡ opening ++ (test_block tests ++ (pushing ++ notices))
unfolding with_tests test_block
with_tests-test_block [] notices = refl
with_tests-test_block (test ∷ tests) notices =
    let block = "echo \"=== Running Tests ===\"" ∷ test ∷ tests in
    append_assoc opening (block ++ pushing) notices
    ∙ ap (λ rest. opening ++ rest) (append_assoc block pushing notices)

-- The specification as one expression over the nodes of the flow, with no groups.
pub specification : List Node → BuildSpec
unfolding test_block
specification nodes = record {
  version = "0.2";
  pre_build =
      set_up nodes
      ++ (commands_of pre_build_of (of_group "prebuild" nodes) ++ dockerfile_setup nodes);
  build =
      first_build ++ (commands_of generate_build_commands (of_group "build" nodes) ++ docker_build);
  post_build =
      opening
      ++ (test_block (
            commands_of generate_test_commands (of_group "test" nodes)
            ++ commands_of utility_test_of (of_group "utility" nodes))
          ++ (pushing
              ++ commands_of generate_notification_commands (of_group "notification" nodes)));
  artifacts = "imagedefinitions.json" ∷ [];
}

-- The grouping keeps the nodes of each group in the order of the flow.
lookup-group_nodes_by_type :
    (type : String) (nodes : List Node)
    → or_none (lookup type (group_nodes_by_type nodes)) ≡ of_group type nodes
unfolding group_nodes_by_type lookup
lookup-group_nodes_by_type type nodes = lookup-group_into type nodes []

push_each-group :
    (f : Node → List String) (type : String) (nodes : List Node) (commands : List String)
    → push_each f (or_none (lookup type (group_nodes_by_type nodes))) commands
      ≡ commands ++ commands_of f (of_group type nodes)
push_each-group f type nodes commands =
    push_each-commands_of f (or_none (lookup type (group_nodes_by_type nodes))) commands
    ∙ ap (λ group. commands ++ commands_of f group) (lookup-group_nodes_by_type type nodes)

-- The generated specification is that of the description without groups: in each phase, the fixed
-- commands stand around those of the nodes of its group, in the order of the flow; the tests come
-- before the image is pushed, and the notifications last.
pub generate_build_spec-specification :
    (nodes : List Node) → generate_build_spec nodes ≡ specification nodes
unfolding generate_build_spec specification
generate_build_spec-specification nodes =
    let before =
      ap (λ commands. commands ++ dockerfile_setup nodes)
        (push_each-group pre_build_of "prebuild" nodes (set_up nodes))
      ∙ append_assoc (set_up nodes) (commands_of pre_build_of (of_group "prebuild" nodes))
          (dockerfile_setup nodes) in
    let build =
      ap (λ commands. commands ++ docker_build)
        (push_each-group generate_build_commands "build" nodes first_build)
      ∙ append_assoc first_build (commands_of generate_build_commands (of_group "build" nodes))
          docker_build in
    let test = push_each-group generate_test_commands "test" nodes [] in
    let tests =
      push_each-group utility_test_of "utility" nodes
        (push_each generate_test_commands (or_none (lookup "test" (group_nodes_by_type nodes))) [])
      ∙ ap (λ commands. commands ++ commands_of utility_test_of (of_group "utility" nodes)) test in
    let notices = commands_of generate_notification_commands (of_group "notification" nodes) in
    let after =
      push_each-group generate_notification_commands "notification" nodes _
      ∙ ap (λ ts. with_tests ts first_post_build ++ notices) tests
      ∙ with_tests-test_block
          (commands_of generate_test_commands (of_group "test" nodes)
            ++ commands_of utility_test_of (of_group "utility" nodes))
          notices in
    λ i. record {
      version = "0.2";
      pre_build = before i;
      build = build i;
      post_build = after i;
      artifacts = "imagedefinitions.json" ∷ [];
    }

-- ===== src/BuildSpec/Generator.antt =====
-- `generateBuildSpec` of src/codebuild/buildspec-generator.service.ts, up to the final
-- `JSON.stringify`.
pub mod Groups
use otto_handler.Prelude.{
  Bool, true, false, String, List, [], ◌∷◌, ◌++◌, take, drop, Option, none, some, truthy, or_text,
  str_eq, if◌then◌else◌,
}
use otto_handler.Prelude.Text.{template}
use otto_handler.Prelude.Maps.{Dictionary, lookup, insert}
use otto_handler.BuildSpec.Types.{Node, BuildSpec, is_block, shown}
use otto_handler.BuildSpec.Commands.{
  generate_pre_build_commands, generate_build_commands, generate_test_commands,
  generate_custom_test_commands, generate_notification_commands,
}
use otto_handler.BuildSpec.Dockerfile.{generate_dockerfile_script}

abbrev pub or_none : Option (List Node) → List Node
or_none none = []
or_none (some nodes) = nodes

-- The loop of `groupNodesByType`, from the groups that there are.
unfoldable pub group_into : List Node → Dictionary (List Node) → Dictionary (List Node)
group_into [] grouped = grouped
group_into (node ∷ nodes) grouped =
    group_into nodes
      (insert node.group_type (or_none (lookup node.group_type grouped) ++ (node ∷ [])) grouped)

unfoldable pub group_nodes_by_type : List Node → Dictionary (List Node)
unfolding group_into
group_nodes_by_type nodes = group_into nodes []

-- `for (const node of nodes) { commands.push(...f(node)) }`
unfoldable pub push_each : (Node → List String) → List Node → List String → List String
push_each f [] commands = commands
push_each f (node ∷ nodes) commands = push_each f nodes (commands ++ f node)

find_block : (Node → Bool) → List Node → Option Node
find_block p [] = none
find_block p (node ∷ nodes) = if p node then some node else find_block p nodes

abbrev version_of : Option Node → Option String
version_of none = none
version_of (some node) = node.version

abbrev manager_of : Option Node → String
manager_of none = "npm"
manager_of (some node) = or_text node.package_manager "npm"

abbrev is_build : Node → Bool
is_build node =
    if is_block "build_webpack" node
    then true
    else if is_block "build_vite" node
    then true
    else is_block "build_custom" node

get_docker_build_command : String → Option Node → Option String
get_docker_build_command m none = none
get_docker_build_command m (some node) =
    if is_block "build_custom" node
    then if truthy node.script_name
      then some (template (m ∷ " run " ∷ shown node.script_name ∷ []))
      else some (template (m ∷ " run build" ∷ []))
    else some (template (m ∷ " run build" ∷ []))

generate_dockerfile_commands : List Node → List String
unfolding find_block get_docker_build_command
generate_dockerfile_commands nodes =
    let m = manager_of (find_block (is_block "install_module_node") nodes) in
    generate_dockerfile_script
      (or_text (version_of (find_block (is_block "node_version") nodes)) "20") m
      (get_docker_build_command m (find_block is_build nodes))
    ∷ []

-- The commands that install the version of a node.
node_setup : Option String → List String
node_setup version =
    if truthy version
    then "echo \"=== Node.js Setup ===\""
      ∷ "echo \"Current Node version:\""
      ∷ "node --version"
      ∷ "# Check if n is installed"
      ∷ "which n || npm install -g n"
      ∷ template ("echo \"Installing Node.js " ∷ shown version ∷ "...\"" ∷ [])
      ∷ template ("n " ∷ shown version ∷ [])
      ∷ "echo \"Updated Node version:\""
      ∷ "node --version"
      ∷ []
    else []

manager_setup : String → List String
manager_setup m =
    if str_eq m "npm"
    then []
    else template ("echo \"Installing " ∷ m ∷ " globally...\"" ∷ [])
      ∷ template ("which " ∷ m ∷ " || npm install -g " ∷ m ∷ [])
      ∷ []

pub first_pre_build : List String
first_pre_build =
    "echo \"=== PRE_BUILD Phase ===\"" ∷ "echo Logging in to Amazon ECR..."
    ∷ "aws ecr get-login-password --region $AWS_DEFAULT_REGION | docker login --username AWS --password-stdin $AWS_ACCOUNT_ID.dkr.ecr.$AWS_DEFAULT_REGION.amazonaws.com"
    ∷ "REPOSITORY_URI=$AWS_ACCOUNT_ID.dkr.ecr.$AWS_DEFAULT_REGION.amazonaws.com/$IMAGE_REPO_NAME"
    ∷ "IMAGE_TAG=user-$USER_ID-project-$PROJECT_ID-build-$CODEBUILD_BUILD_NUMBER" ∷ []

abbrev pub first_build : List String
first_build = "echo \"=== BUILD Phase ===\"" ∷ "echo Build started on `date`" ∷ []

abbrev pub first_post_build : List String
first_post_build =
    "echo \"=== POST_BUILD Phase ===\"" ∷ "echo Build completed on `date`"
    ∷ "echo \"=== Docker Push ===\"" ∷ "echo Pushing the Docker images..."
    ∷ "docker push $REPOSITORY_URI:latest" ∷ "docker push $REPOSITORY_URI:$IMAGE_TAG"
    ∷ "echo Writing image definitions file..."
    ∷ "printf '[{\"name\":\"otto-container\",\"imageUri\":\"%s\"}]' $REPOSITORY_URI:$IMAGE_TAG > imagedefinitions.json"
    ∷ []

abbrev pub docker_build : List String
docker_build =
    "echo \"=== Docker Build ===\"" ∷ "echo \"Checking for Dockerfile...\""
    ∷ "[ -f Dockerfile ] && echo \"Dockerfile found\" || echo \"Dockerfile NOT found\""
    ∷ "echo \"Building Docker image...\"" ∷ "docker build -t $REPOSITORY_URI:latest ."
    ∷ "docker tag $REPOSITORY_URI:latest $REPOSITORY_URI:$IMAGE_TAG" ∷ []

-- `commands.splice(2, 0, 'echo …', ...tests)`, if there are tests
unfoldable pub with_tests : List String → List String → List String
with_tests [] commands = commands
with_tests (test ∷ tests) commands =
    take 2 commands ++ (("echo \"=== Running Tests ===\"" ∷ test ∷ tests) ++ drop 2 commands)

abbrev pub pre_build_of : Node → List String
pre_build_of node = if is_block "node_version" node then [] else generate_pre_build_commands node

abbrev pub utility_test_of : Node → List String
utility_test_of node =
    if is_block "test_custom" node then generate_custom_test_commands node else []

-- The set-up that stands before the commands of the nodes in the first phase.
pub set_up : List Node → List String
unfolding node_setup manager_setup find_block first_pre_build
set_up nodes =
    node_setup (version_of (find_block (is_block "node_version") nodes))
    ++ (first_pre_build
        ++ manager_setup (manager_of (find_block (is_block "install_module_node") nodes)))

pub dockerfile_setup : List Node → List String
unfolding generate_dockerfile_commands
dockerfile_setup nodes = "echo \"=== Dockerfile Setup ===\"" ∷ generate_dockerfile_commands nodes

unfoldable pub generate_build_spec : List Node → BuildSpec
unfolding group_nodes_by_type push_each with_tests
generate_build_spec nodes =
    let grouped = group_nodes_by_type nodes in
    let group : String → List Node = λ type. or_none (lookup type grouped) in
    let tests =
      push_each utility_test_of (group "utility")
        (push_each generate_test_commands (group "test") []) in
    record {
      version = "0.2";
      pre_build =
          push_each pre_build_of (group "prebuild") (set_up nodes) ++ dockerfile_setup nodes;
      build = push_each generate_build_commands (group "build") first_build ++ docker_build;
      post_build =
          push_each generate_notification_commands (group "notification")
            (with_tests tests first_post_build);
      artifacts = "imagedefinitions.json" ∷ [];
    }

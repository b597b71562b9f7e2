-- ===== src/Lib.antt =====
-- The back end of Otto, a service that builds and deploys the repositories of its users: a NestJS
-- application (src/) with GitHub sign-in, builds on AWS CodeBuild, deployments on ECS behind a load
-- balancer that EventBridge watches, and logs that are streamed to browsers over web sockets.
--
-- Parts, and how they interact
--   LogBuffer   src/logs/services/log-buffer/log-buffer.service.ts. `LogBuffer.Ring` is the class
--               CircularBuffer, `LogBuffer.Service` the class LogBufferService over it: a map from
--               execution ids to ring buffers, changed by addLogs, clearBuffer and clearAllBuffers.
--               `Ring.Represents` relates a buffer to the list of its items.
--   Auth        src/auth/auth.service.ts (`Auth.Service`: refresh tokens and their rotation, logout,
--               storing the users that GitHub names), src/auth/github-oauth.service.ts (`Auth.Oauth`),
--               src/auth/auth.controller.ts (`Auth.Controller`, over the two) and
--               src/common/guard/auth.guard.ts (`Auth.Guard`, which verifies the token that
--               `Auth.Service` signs). The entities and constants are in `Auth.Types`.
--   Deployment  src/deployment. `Deployment.Rules` is DeploymentEventBridgeService, which creates and
--               removes the rules that report on a deployment; `Deployment.Tracker` is
--               DeploymentTrackerService, which writes the row of a deployment, announces each change,
--               and uses the rules; `Deployment.Events` is DeploymentEventsService, whose handlers take
--               the events that the rules select (`Deployment.Details`) and update rows through the tracker. The row, the
--               JSON values of its metadata and the external calls are in `Deployment.Types`.
--               `Deployment.Cleanup` is PipelineCleanupService, which removes what the deployments of a
--               pipeline have set up, part after part, and uses the rules.
--   Cloudwatch  src/logs/services/cloudwatch/cloudwatch.service.ts (`Cloudwatch.Service`: a poller that
--               reads a log stream, one tick after the other, and the recovery of a whole stream;
--               `Cloudwatch.Message`: the level and phase of a message) over
--               src/logs/services/log-storage/log-storage.service.ts (`Cloudwatch.Storage`), which saves
--               rows in a transaction. A poller also adds its logs to the log buffer, by an external
--               call here.
--   Logs        src/logs/logs.service.ts, over the two before: `Logs.Executions` (the rows of executions,
--               their status and who may see them), `Logs.Combined` (the logs of the build and of the
--               deployment in one list), `Logs.Stale` (the scheduled tasks that check running executions
--               and recover logs) and `Logs.Ecs` (the logs of the containers of a pipeline); and
--               src/logs/logs.gateway.ts (`Logs.Gateway`: who may follow an execution). The rows and
--               the calls are in `Cloudwatch.Types`.
--   Webhook     src/github-app: `Webhook.Controller` is GithubWebhookController, which checks the
--               signature of a webhook and hands it to `Webhook.Events`, GithubWebhookService.
--   Rollout     src/deployment/deployment.service.ts, over the tracker: `Rollout.Service` takes the steps of
--               a deployment in their order; `Rollout.Network`, `Rollout.Routing` and `Rollout.Tasks` are
--               the steps. `Deployment.Health` is src/deployment/health-check.service.ts, and
--               `Health.Found` what its check finds in production.
--   EventBridge src/logs/eventbridge.service.ts (`EventBridge.Service`: the handling of an event, with
--               what it reads of a build in `EventBridge.Builds` and the deployments that it brings about
--               in `EventBridge.Deploy`), the marking of events in src/common/redis/redis.service.ts
--               (`EventBridge.Dedup`), and `EventBridge.Lambda`: lambda/index.ts, which forwards the
--               events of AWS, and src/logs/eventbridge.controller.ts, which its requests reach.
--   Builds      src/codebuild: `Builds.Service` (build projects) and `Builds.Runs` (their builds, and the row
--               that is stored for each) are CodeBuildService of codebuild.service.ts, over
--               `Builds.Registry` (ECRService of ecr.service.ts: image repositories, tags and URIs),
--               `Builds.LogGroups` (CloudWatchLogsService of cloudwatch-logs.service.ts) and `Builds.Rules`
--               (EventBridgeService of eventbridge.service.ts: the rule that reports on the builds).
--   Projects    src/project/project.service.ts, over the builds: `Projects.Service` creates a project, and
--               takes back what it has set up where that fails, and deletes one with its resources.
--   Pipelines   src/pipeline/pipeline.service.ts, over the builds, the roll-out, the clean-up and the health
--               check: `Pipelines.Service` keeps the pipelines of a user, runs their builds and deploys
--               what has been built.
--   GithubApp   src/github-app/github-app.service.ts: `GithubApp.Service` reads the repositories, branches and
--               installations of a user through the library octokit.
--   BuildSpec   src/codebuild/buildspec-generator.service.ts (`BuildSpec.Generator`, and the commands of
--               one node in `BuildSpec.Commands`) and src/codebuild/dockerfile-generator.ts
--               (`BuildSpec.Dockerfile`): pure functions from the nodes of a flow to commands. The
--               specification is a record; JSON.stringify, which prints it, is left out.
--   Prelude     what the parts share: lists, texts, JavaScript maps, JSON values and asynchronous code, with
--               the rules of `Prelude.Grows` for calls that stay made whatever follows them, and
--               `Prelude.Lift`, by which a part runs the methods of another over its own calls, and
--               `Prelude.Yields` for what holds of a result whatever the steps before it do; `Prelude.Resolves`
--               does the same for calls that resolve, `Prelude.Keeps` for what a step leaves as it was, and
--               `Prelude.Splits` for the texts that split() and join() take apart and put together.
-- Each part has its runs on concrete inputs in a module Examples.
--
-- How the code is modelled
--   A method is a function of the same name in snake case, whose body follows the source's statements.
--   Asynchronous code is in the monad `M` of `Prelude.Effects`: each part lists its external calls
--   (repositories, AWS clients, HTTP, JWT, event emitters and sockets) as a data type `Call` with the
--   types `Ret` of their results, and an environment answers each call from the history of all calls
--   before it, or rejects it. The environment is a parameter and nothing is assumed of it but what a
--   theorem names. The clock is a parameter in the same way, in milliseconds. A thrown error is a value
--   with a name and a message, and try, catch and early returns are written out.
--   Numbers are natural numbers. The ring buffer is given its capacity, which LogBufferService sets to
--   1000. Loops are recursion on the list they run over, and the loop of fetchAndSaveAllLogs is recursion
--   on the attempts that are left of the ten that the source allows; the wait for the tasks of a service
--   to stop is recursion on the looks that are left of its thirty.
--
-- Not modelled
--   Console logging, which decides nothing. Interleavings of two requests within one method: a
--   method runs from start to end, but the environment may answer differently at each call, so
--   another request's writes can show between its calls. Two ticks of a poller that overlap, and
--   the table of its timers. Deletions that a roll-back starts together follow one another here. The
--   controllers but those of the sign-in, of the webhooks and of the events, the wrappers of src/aws, modules,
--   entities that no modelled service uses, migrations and seeds, and the generated client sdk/, which
--   hold no logic of the services above.
mod Prelude
pub mod LogBuffer
pub mod Auth
pub mod Deployment
pub mod Cloudwatch
pub mod Builds
pub mod BuildSpec
pub mod Projects
pub mod Logs
pub mod Webhook
pub mod GithubApp
pub mod EventBridge
pub mod Rollout
pub mod Pipelines

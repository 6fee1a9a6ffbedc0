-- ===== src/ControlPlane/Store/Tests/CatalogueRuns.antt =====
-- Repositories, generations, replicas, erasure shards and the statistics at small inputs.
use repo_ark.Prelude.{min, String, ◌≡◌, refl, true, false, arith, In, length}
use repo_ark.Prelude.Int.{pos}
use repo_ark.Prelude.Table.{get, list_at}
use repo_ark.ControlPlane.Model.{Generation, Repository, Job}
use repo_ark.ControlPlane.Store.{new_memory_store}
use repo_ark.ControlPlane.Store.Repositories.{upsert_repository, is_due, repo_at}
use repo_ark.ControlPlane.Store.Repositories.Schedule.{rediscovery_reschedules}
use repo_ark.ControlPlane.Store.Generations.{newer, list_replicas}
use repo_ark.ControlPlane.Store.Generations.Replicas.{IsOnePerAgent}
use repo_ark.ControlPlane.Store.Generations.Pruning.{kept_of, prune_keeps_newest}
use repo_ark.ControlPlane.Store.ErasureSets.{list_erasure_shards}
use repo_ark.ControlPlane.Store.ErasureSets.Shards.{IsOneCopy}
use repo_ark.ControlPlane.Samples.{two_nodes, tool, waiting_job}

abbrev id_of : String → String → String
id_of account name = "r1"

abbrev found_again : Repository
found_again = record tool { next_run_at = 100 }

rediscovery_reschedules_example :
    is_due 100 (repo_at "r1" (upsert_repository id_of 100 found_again two_nodes)) ≡ true
rediscovery_reschedules_example =
    rediscovery_reschedules id_of 100 found_again two_nodes refl refl refl refl

no_replicas : (gid : String) → IsOnePerAgent (list_replicas gid new_memory_store)
unfolding list_replicas new_memory_store get
no_replicas gid = tt

prune_keeps_newest_example :
    let old = list_at "r1" two_nodes.generations in
    let kept = kept_of "r1" (pos 1) two_nodes in
    (length kept ≡ min 1 (length old))
    × ((a : Generation) → In a kept → In a old)
    × ((a b : Generation) → In a kept → In b old → ¬ In b kept → newer b a ≡ false)
prune_keeps_newest_example = prune_keeps_newest "r1" (pos 1) two_nodes (omega arith)

no_shards : (d : String) → IsOneCopy (list_erasure_shards d new_memory_store)
unfolding list_erasure_shards new_memory_store get
no_shards d = tt

abbrev job_of_n1 : Job
job_of_n1 = record waiting_job { affinity = "n1" }

-- ===== src/Partition/Manager/Tests.antt =====
-- Tests of crates/rvm-partition/src/manager.rs: two partitions, of which one is started and the other
-- removed.
use rvm.Prelude.{◌≡◌, refl, arith, none, some, List, [], ◌∷◌, ok, err}
use rvm.Types.{partition_not_found}
use rvm.Partition.Manager.{Partition, running, agent, root, new_partition, new}
use rvm.Partition.Manager.Directory.{
  Call, creates, gets, removes, changes, created_as, got, removed, changed, answers,
  expected_answers,
}
use rvm.Partition.Manager.Refinement.{answers-expected_answers}

abbrev start : Partition → Partition
start p = record p { state = running }

abbrev calls : List Call
calls =
    creates agent 2 0
    ∷ creates root 1 0
    ∷ changes 2 start (λ p. refl)
    ∷ removes 1
    ∷ gets 1
    ∷ gets 2
    ∷ removes 1
    ∷ []

runs :
    expected_answers (record { entries = λ id. none; live = 0; next = 1 }) calls
    ≡ created_as (ok 1)
      ∷ created_as (ok 2)
      ∷ changed
      ∷ removed (ok tt)
      ∷ got none
      ∷ got (some (start (new_partition 2 root 1 0)))
      ∷ removed (err partition_not_found)
      ∷ []
runs = refl

answers-expected_answers_example :
    answers new calls ≡ expected_answers (record { entries = λ id. none; live = 0; next = 1 }) calls
answers-expected_answers_example = answers-expected_answers calls (omega arith)

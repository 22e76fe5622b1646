-- ===== src/Security/Budget/Tests.antt =====
-- Tests of crates/rvm-security/src/budget.rs. Runs of the quotas on concrete calls.
use rvm.Prelude.{List, [], ◌∷◌}
use rvm.Security.Budget.{quota_new, gpu_new, Call, memory, dma, gpu_launch, epoch, run}
use rvm.Security.Budget.Limits.{IsWithin, run-new-IsWithin}

abbrev busy_epoch : List Call
busy_epoch = memory 60 ∷ memory 50 ∷ dma 7 ∷ gpu_launch ∷ epoch ∷ []

run-new-IsWithin_example :
    IsWithin (run (record { host = quota_new 10 100 3 9; gpu = gpu_new 5 50 40 1 }) busy_epoch)
run-new-IsWithin_example = run-new-IsWithin 10 100 3 9 5 50 40 1 busy_epoch

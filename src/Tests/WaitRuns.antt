-- ===== src/Tests/WaitRuns.antt =====
-- Waiting for a receipt that comes with the second attempt.
use samanager_backend.Base.{
  ◌+◌, ◌==◌, ◌<◌, ◌≡◌, ◌↔◌, ℕ, true, none, ok, refl, List, replicate, if◌then◌else◌,
}
use samanager_backend.Base.Int.{pos}
use samanager_backend.Network.{Network, UserOperationReceipt}
use samanager_backend.Bundler.{get_user_operation_receipt, is_zero_hash}
use samanager_backend.Bundler.Wait.{
  receipt, attempt, poll, answer_of, after, IsQuiet, wait_for_user_op_receipt,
  wait_for_user_op_receipt_iff,
}
use samanager_backend.Tests.ChainRuns.{receipt_of, net}

abbrev pub late : Network
late = record net {
  receipt =
      λ client hash s. (ok (receipt_of (if s == 0 then replicate 32 0 else hash) true), s + 1);
}

abbrev pub awaited : List ℕ
awaited = replicate 32 9

abbrev awaited_receipt : UserOperationReceipt
awaited_receipt = receipt_of awaited true

wait_for_user_op_receipt_iff_example :
    ((wait_for_user_op_receipt late (λ s. (none, s)) "sepolia" awaited (pos 3) 0).0
      ≡ ok awaited_receipt)
    ↔ ((k : ℕ) × (k < 3)
        × IsQuiet late (λ s. (none, s)) "sepolia" awaited k 0
        × ((attempt late
              (λ s. (none, s))
              "sepolia"
              awaited
              (after late (λ s. (none, s)) "sepolia" awaited k 0)).0
            ≡ receipt awaited_receipt))
wait_for_user_op_receipt_iff_example =
    wait_for_user_op_receipt_iff late (λ s. (none, s)) "sepolia" awaited 3 0 awaited_receipt

waited :
    (wait_for_user_op_receipt late (λ s. (none, s)) "sepolia" awaited (pos 3) 0).0
    ≡ ok awaited_receipt
unfolding wait_for_user_op_receipt poll attempt answer_of get_user_operation_receipt is_zero_hash
waited = refl

-- ===== src/Consumer/Prune.antt =====
-- src/sources/cloudflare/journal.rs: what `prune` drops.
use agent_first_mail.Prelude.{
  ◌+◌, ◌≤◌, String, ◌≡◌, ◌↔◌, ◌⊎◌, true, false, Option, some, none, arith, lookup,
  lookup-retain_values, keep_if, Bool,
}
use agent_first_mail.Prelude.Int.{ℤ, pos_part, neg_part, saturating_sub_lt}
use agent_first_mail.Consumer.{Receipt, Journal, receipt_retention_s, consultable, prune}

keep_if-some {ℓ} :
    {V : Type ℓ} (p : V → Bool) (o : Option V) (v : V)
    → (keep_if p o ≡ some v) ↔ ((o ≡ some v) × (p v ≡ true))
keep_if-some p none v = (λ h. absurd (cc), λ h. cc)
keep_if-some p (some w) v = (λ h. (ground arith, ground arith), λ h. ground arith)

-- A receipt stays exactly if its cleanup is not complete, or it is younger than fifteen days (the
-- difference of two 64-bit times, saturated): none is dropped that a Queue event could ask about.
pub lookup-prune_receipts :
    (now : ℤ) (j : Journal) (k : String) (r : Receipt)
    → (lookup k (prune now j).receipts ≡ some r) ↔ (
        (lookup k j.receipts ≡ some r)
        × ((r.cleanup_complete ≡ false)
            ⊎ (pos_part now + neg_part r.imported_epoch_s + 1
                ≤ 1296000 + pos_part r.imported_epoch_s + neg_part now)))
unfolding prune consultable
lookup-prune_receipts now j k r =
    let young = saturating_sub_lt now r.imported_epoch_s receipt_retention_s (omega arith) in
    let both = keep_if-some (consultable now) (lookup k j.receipts) r in
    rw lookup-retain_values (
      λ h. ((both.0 h).0, ground (arith, (both.0 h).1, young.0)),
      λ h. both.1 (h.0, ground (arith, h.1, young.1)),
    )

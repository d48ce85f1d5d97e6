-- ===== src/Signer/Submit.antt =====
-- signer/signer.go: the retry loop around BtcMultiSign.
use btc_vendor_tools.Base.{ℕ, zero, suc, ◌≡◌, ◌≢◌, refl, ap, List, [], ◌∷◌, ◌++◌, replicate}
use btc_vendor_tools.Signer.{
  Reply, accepted, post_failed, rejected, Verdict, done, failed, waiting, Submission, Attempt,
  submit,
}

abbrev pub verdict_of : Reply → Verdict
verdict_of (accepted txid) = done txid
verdict_of post_failed = waiting
verdict_of rejected = failed

retry : Submission → Attempt → Attempt
retry s a = record a { calls = s ∷ a.calls }

-- After any number of failures to post, the first other reply ends the loop with its verdict: the
-- call was made once for each failure and once more, always with the same arguments, and the later
-- replies are left. Failures alone do not end it.
pub submit_replies :
    (s : Submission) (n : ℕ) (r : Reply) (rest : List Reply)
    → r ≢ post_failed
    → (submit s (replicate n post_failed ++ r ∷ rest)
        ≡ record { verdict = verdict_of r; calls = replicate (suc n) s; replies = rest })
      × (submit s (replicate n post_failed)
          ≡ record { verdict = waiting; calls = replicate n s; replies = [] })
unfolding submit retry
submit_replies s zero (accepted txid) rest h = (refl, refl)
submit_replies s zero post_failed rest h = absurd (h refl)
submit_replies s zero rejected rest h = (refl, refl)
submit_replies s (suc n) r rest h =
    let (ends, waits) = submit_replies s n r rest h in (ap (retry s) ends, ap (retry s) waits)

-- ===== src/Sigstore/Accepted.antt =====
-- What a verified signature rests on.
use Prim.Native.String.{◌++◌ as append}
use clusterproof.Prelude.{String, Bool, false, not, ◌&&◌, List, ◌++◌, ◌==◌, nat_eq}
use clusterproof.Image.{Reference}
use clusterproof.Trust.{Key}
use clusterproof.Sigstore.{
  Options, Signer, by_key, Outcome, exited, verify_args, pinned_reference, claim_count,
}

module _ (cosign : List String → Outcome) (reference : Reference) (options : Options) where
  -- Cosign ends well for a signer, with at least one claim.
  abbrev pub accepts : Signer → Bool
  accepts signer = elim (cosign (verify_args (pinned_reference reference) signer options)) [
    | exited claims ↦ not (nat_eq (claim_count claims) 0)
    | _ ↦ false
  ]

  abbrev pub accepts_key : Key → Bool
  accepts_key key = not (key.path == "") && accepts (by_key key)

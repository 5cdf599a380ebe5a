-- ===== src/Network/Targets.antt =====
-- internal/network/network.go: the targets of the findings on namespaces tell the namespaces apart.
use Prim.Native.String.{◌++◌ as append, len, slice}
use text.Mathlib.TextPositions.{len-append, slice-append_left}
use mathlib.Core.Path.{ap₂}
use clusterproof.Prelude.{ℕ, ◌+◌, String, ◌≡◌, sym, ap, ◌∙◌, ◌==◌, arith, eq_iff}
use clusterproof.Network.{namespace_target}

half : (x y k : ℕ) → x + (k + x) ≡ y + (k + y) → x ≡ y
half x y k h = omega arith

len-namespace_target : (x : String) → len (namespace_target x) ≡ len x + (len "/Namespace/" + len x)
len-namespace_target x =
    len-append x (append "/Namespace/" x) ∙ ap (λ n. len x + n) (len-append "/Namespace/" x)

namespace_target-injective : (x y : String) → namespace_target x ≡ namespace_target y → x ≡ y
namespace_target-injective x y e =
    sym (slice-append_left x (append "/Namespace/" x))
    ∙ ap₂ (λ s n. slice s 0 n) e
        (half (len x) (len y) (len "/Namespace/")
          (sym (len-namespace_target x) ∙ ap len e ∙ len-namespace_target y))
    ∙ slice-append_left y (append "/Namespace/" y)

-- The test on targets is the test on namespaces.
pub namespace_target-eq : (x y : String) → (namespace_target x == namespace_target y) ≡ (x == y)
namespace_target-eq x y = ground (
  arith,
  eq_iff (namespace_target x) (namespace_target y),
  eq_iff x y,
  λ (e : namespace_target x ≡ namespace_target y). namespace_target-injective x y e,
)

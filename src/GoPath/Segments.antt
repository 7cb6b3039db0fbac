-- ===== src/GoPath/Segments.antt =====
-- Runs of path.Clean and path.Join.
use k8s_operator_hermes_agen.Common.{◌≡◌, refl}
use k8s_operator_hermes_agen.GoPath.{clean, join}

clean_tests :
    (clean "a//b/./c/../d" ≡ "a/b/d")
    × (clean "../../x" ≡ "../../x")
    × (clean "/../x" ≡ "/x")
    × (clean "a/.." ≡ ".")
    × (join "/data/hermes" "config.yaml" ≡ "/data/hermes/config.yaml")
unfolding clean join
clean_tests = (refl, refl, refl, refl, refl)

-- ===== src/Text/Tests.antt =====
-- The theorems about texts, at short texts.
use nrtb_redo.Common.{◌≡◌, some, arith}
use nrtb_redo.Common.Bytes.{Bytes, codes, Lacks, IsBytes}
use nrtb_redo.Common.Outcome.{returns}
use nrtb_redo.Text.Gsub.{gsub, gsub_result, gsub_lem}
use nrtb_redo.Text.Hex.{http_enhex, http_unhex}
use nrtb_redo.Text.Hex.RoundTrip.{http_unhex-http_enhex}

abbrev two_bytes : Bytes
two_bytes = codes "a1"

two_bytes-IsBytes : IsBytes two_bytes
two_bytes-IsBytes = (omega arith, (omega arith, tt))

two_bytes-Lacks : Lacks b'%' two_bytes
two_bytes-Lacks = ((λ e. ground (arith, e)), ((λ e. ground (arith, e)), tt))

gsub_lem_example :
    gsub (codes "aaab") (codes "aa") (codes "aaa")
    ≡ gsub_result (codes "aaab") (codes "aa") (codes "aaa")
gsub_lem_example = gsub_lem (codes "aaab") (codes "aa") (codes "aaa")

http_unhex-http_enhex_example :
    (out : Bytes) × (http_enhex two_bytes ≡ returns out)
    × (http_unhex out ≡ some (returns two_bytes))
http_unhex-http_enhex_example = http_unhex-http_enhex two_bytes two_bytes-IsBytes two_bytes-Lacks

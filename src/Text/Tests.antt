-- ===== src/Text/Tests.antt =====
-- Comparing without regard to case.
use pdc_pop3d.Prelude.{◌≡◌, ◌↔◌, pos}
use pdc_pop3d.CString.{codes}
use pdc_pop3d.Text.{strncasecmp}
use pdc_pop3d.Text.Compare.{folded, strncasecmp_iff}

strncasecmp_example :
    (strncasecmp (codes "retrieve") (codes "RETR") 4 ≡ pos 0)
    ↔ (folded 4 (codes "retrieve") ≡ folded 4 (codes "RETR"))
strncasecmp_example = strncasecmp_iff (codes "retrieve") (codes "RETR") 4

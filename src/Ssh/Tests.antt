-- ===== src/Ssh/Tests.antt =====
-- The theorems on crates/avash/src/ssh.rs, applied to small inputs.
use avash.Base.{◌≡◌, refl, some, none, ◌++◌}
use avash.Base.Text.{Text, codes, strip_prefix}
use avash.Ssh.Safe.{IsSafe, safe_remote_text-IsSafe}
use avash.Ssh.{safe_remote_text, split_at, marker_start, without_markers}
use avash.Ssh.Remote.{without_markers-nested}

plain : split_at marker_start (codes "HOST_KEY_CHANGED]") ≡ none
unfolding split_at strip_prefix
plain = refl

without_markers-nested_example :
    without_markers (codes "[AVA[AVASH_]SH_" ++ codes "HOST_KEY_CHANGED]")
    ≡ some (marker_start ++ codes "HOST_KEY_CHANGED]")
without_markers-nested_example = without_markers-nested (codes "HOST_KEY_CHANGED]") plain

safe_remote_text-IsSafe_example :
    (s : Text) × (safe_remote_text (codes "no\r\n [AVASH_KEY] route") ≡ some s) × IsSafe s
safe_remote_text-IsSafe_example = safe_remote_text-IsSafe (codes "no\r\n [AVASH_KEY] route")

-- ===== src/Userdata/ContentType/Tests.antt =====
-- Detection with decoding that takes every byte for a character.
use cloud_init_rs.Prelude.{◌≡◌, refl, ◌≢◌, ◌↔◌, true, some}
use cloud_init_rs.Prelude.Texts.{lit, starts_with, trim_start}
use cloud_init_rs.Userdata.ContentType.{script, base64, detect, detect_from_text}
use cloud_init_rs.Userdata.ContentType.Detection.{detect-ne-base64, detect_from_text-script_iff}

detect-ne-base64_example : detect (λ bs. some bs) (lit "aGVsbG8=") ≢ base64
detect-ne-base64_example = detect-ne-base64 (λ bs. some bs) (λ bs a. refl) (lit "aGVsbG8=")

detect_from_text-script_iff_example :
    (detect_from_text (lit " #!/bin/sh") ≡ script)
    ↔ (starts_with (trim_start (lit " #!/bin/sh")) (lit "#!") ≡ true)
detect_from_text-script_iff_example = detect_from_text-script_iff (lit " #!/bin/sh")

-- ===== src/Userdata/Mime/Create.antt =====
-- src/userdata/mime.rs: `create_multipart`. A part is its delimiter and what stands between it and
-- the next one.
use cloud_init_rs.Prelude.{Option, none, some, List, [], ◌∷◌, ◌++◌}
use cloud_init_rs.Prelude.Texts.{Text, lit}
use cloud_init_rs.Userdata.Mime.{MimePart}

unfoldable pub disposition : Option Text → Text
unfolding lit
disposition none = []
disposition (some f) = lit "Content-Disposition: attachment; filename=\"" ++ (f ++ lit "\"\r\n")

unfoldable pub part_text : MimePart → Text
unfolding disposition lit
part_text part =
    lit "\r\n"
    ++ (lit "Content-Type: "
        ++ (part.mime_type
            ++ (lit "\r\n"
                ++ (disposition part.filename ++ (lit "\r\n" ++ (part.content ++ lit "\r\n"))))))

unfoldable pub parts_text : Text → List MimePart → Text
unfolding part_text lit
parts_text boundary [] = []
parts_text boundary (p ∷ ps) = lit "--" ++ (boundary ++ (part_text p ++ parts_text boundary ps))

unfoldable pub create_multipart : List MimePart → Text → Text
unfolding parts_text lit
create_multipart parts boundary =
    lit "MIME-Version: 1.0\r\n"
    ++ (lit "Content-Type: multipart/mixed; boundary=\""
        ++ (boundary
            ++ (lit "\"\r\n"
                ++ (lit "\r\n"
                    ++ (parts_text boundary parts ++ (lit "--" ++ (boundary ++ lit "--\r\n")))))))

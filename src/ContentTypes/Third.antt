-- ===== src/ContentTypes/Third.antt =====
-- Lines 265 to 389 of node/contentType.go.
use de_oss.Base.{String, List, [], ◌∷◌}

abbrev pub third_types : List (String × String)
third_types =
    (".pcx", "image/x-pcx")
    ∷ (".pda", "image/x-pda")
    ∷ (".pdb", "chemical/x-pdb")
    ∷ (".pdf", "application/pdf")
    ∷ (".pfr", "application/font-tdpfr")
    ∷ (".pfx", "application/x-pkcs12")
    ∷ (".pgm", "image/x-portable-graymap")
    ∷ (".pict", "image/x-pict")
    ∷ (".pko", "application/ynd.ms-pkipko")
    ∷ (".pm", "application/x-perl")
    ∷ (".pma", "application/x-perfmon")
    ∷ (".pmc", "application/x-perfmon")
    ∷ (".pmd", "application/x-pmd")
    ∷ (".pml", "application/x-perfmon")
    ∷ (".pmr", "application/x-perfmon")
    ∷ (".pmw", "application/x-perfmon")
    ∷ (".png", "image/png")
    ∷ (".pnm", "image/x-portable-anymap")
    ∷ (".pnz", "image/png")
    ∷ (".pot", "application/vnd.ms-powerpoint")
    ∷ (".ppm", "image/x-portable-pixmap")
    ∷ (".pps", "application/vnd.ms-powerpoint")
    ∷ (".ppt", "application/vnd.ms-powerpoint")
    ∷ (".pptx", "application/vnd.openxmlformats-officedocument.presentationml.presentation")
    ∷ (".pqf", "application/x-cprplayer")
    ∷ (".pqi", "application/cprplayer")
    ∷ (".prc", "application/x-prc")
    ∷ (".prf", "application/pics-rules")
    ∷ (".prop", "text/plain")
    ∷ (".proxy", "application/x-ns-proxy-autoconfig")
    ∷ (".ps", "application/postscript")
    ∷ (".ptlk", "application/listenup")
    ∷ (".pub", "application/x-mspublisher")
    ∷ (".pvx", "video/x-pv-pvx")
    ∷ (".qcp", "audio/vnd.qcelp")
    ∷ (".qt", "video/quicktime")
    ∷ (".qti", "image/x-quicktime")
    ∷ (".qtif", "image/x-quicktime")
    ∷ (".r3t", "text/vnd.rn-realtext3d")
    ∷ (".ra", "audio/x-pn-realaudio")
    ∷ (".ram", "audio/x-pn-realaudio")
    ∷ (".rar", "application/octet-stream")
    ∷ (".ras", "image/x-cmu-raster")
    ∷ (".rc", "text/plain")
    ∷ (".rdf", "application/rdf+xml")
    ∷ (".rf", "image/vnd.rn-realflash")
    ∷ (".rgb", "image/x-rgb")
    ∷ (".rlf", "application/x-richlink")
    ∷ (".rm", "audio/x-pn-realaudio")
    ∷ (".rmf", "audio/x-rmf")
    ∷ (".rmi", "audio/mid")
    ∷ (".rmm", "audio/x-pn-realaudio")
    ∷ (".rmvb", "audio/x-pn-realaudio")
    ∷ (".rnx", "application/vnd.rn-realplayer")
    ∷ (".roff", "application/x-troff")
    ∷ (".rp", "image/vnd.rn-realpix")
    ∷ (".rpm", "audio/x-pn-realaudio-plugin")
    ∷ (".rt", "text/vnd.rn-realtext")
    ∷ (".rte", "x-lml/x-gps")
    ∷ (".rtf", "application/rtf")
    ∷ (".rtg", "application/metastream")
    ∷ (".rtx", "text/richtext")
    ∷ (".rv", "video/vnd.rn-realvideo")
    ∷ (".rwc", "application/x-rogerwilco")
    ∷ (".s3m", "audio/x-mod")
    ∷ (".s3z", "audio/x-mod")
    ∷ (".sca", "application/x-supercard")
    ∷ (".scd", "application/x-msschedule")
    ∷ (".sct", "text/scriptlet")
    ∷ (".sdf", "application/e-score")
    ∷ (".sea", "application/x-stuffit")
    ∷ (".setpay", "application/set-payment-initiation")
    ∷ (".setreg", "application/set-registration-initiation")
    ∷ (".sgm", "text/x-sgml")
    ∷ (".sgml", "text/x-sgml")
    ∷ (".sh", "application/x-sh")
    ∷ (".shar", "application/x-shar")
    ∷ (".shtml", "magnus-internal/parsed-html")
    ∷ (".shw", "application/presentations")
    ∷ (".si6", "image/si6")
    ∷ (".si7", "image/vnd.stiwap.sis")
    ∷ (".si9", "image/vnd.lgtwap.sis")
    ∷ (".sis", "application/vnd.symbian.install")
    ∷ (".sit", "application/x-stuffit")
    ∷ (".skd", "application/x-Koan")
    ∷ (".skm", "application/x-Koan")
    ∷ (".skp", "application/x-Koan")
    ∷ (".skt", "application/x-Koan")
    ∷ (".slc", "application/x-salsa")
    ∷ (".smd", "audio/x-smd")
    ∷ (".smi", "application/smil")
    ∷ (".smil", "application/smil")
    ∷ (".smp", "application/studiom")
    ∷ (".smz", "audio/x-smd")
    ∷ (".snd", "audio/basic")
    ∷ (".spc", "application/x-pkcs7-certificates")
    ∷ (".spl", "application/futuresplash")
    ∷ (".spr", "application/x-sprite")
    ∷ (".sprite", "application/x-sprite")
    ∷ (".sdp", "application/sdp")
    ∷ (".spt", "application/x-spt")
    ∷ (".src", "application/x-wais-source")
    ∷ (".sst", "application/vnd.ms-pkicertstore")
    ∷ (".stk", "application/hyperstudio")
    ∷ (".stl", "application/vnd.ms-pkistl")
    ∷ (".stm", "text/html")
    ∷ (".svg", "image/svg+xml")
    ∷ (".sv4cpio", "application/x-sv4cpio")
    ∷ (".sv4crc", "application/x-sv4crc")
    ∷ (".svf", "image/vnd")
    ∷ (".svg", "image/svg+xml")
    ∷ (".svh", "image/svh")
    ∷ (".svr", "x-world/x-svr")
    ∷ (".swf", "application/x-shockwave-flash")
    ∷ (".swfl", "application/x-shockwave-flash")
    ∷ (".t", "application/x-troff")
    ∷ (".tad", "application/octet-stream")
    ∷ (".talk", "text/x-speech")
    ∷ (".tar", "application/x-tar")
    ∷ (".taz", "application/x-tar")
    ∷ (".tbp", "application/x-timbuktu")
    ∷ (".tbt", "application/x-timbuktu")
    ∷ (".tcl", "application/x-tcl")
    ∷ (".tex", "application/x-tex")
    ∷ (".texi", "application/x-texinfo")
    ∷ []

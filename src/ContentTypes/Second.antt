-- ===== src/ContentTypes/Second.antt =====
-- Lines 140 to 264 of node/contentType.go.
use de_oss.Base.{String, List, [], ◌∷◌}

abbrev pub second_types : List (String × String)
second_types =
    (".imy", "audio/melody")
    ∷ (".ins", "application/x-internet-signup")
    ∷ (".ips", "application/x-ipscript")
    ∷ (".ipx", "application/x-ipix")
    ∷ (".isp", "application/x-internet-signup")
    ∷ (".it", "audio/x-mod")
    ∷ (".itz", "audio/x-mod")
    ∷ (".ivr", "i-world/i-vrml")
    ∷ (".j2k", "image/j2k")
    ∷ (".jad", "text/vnd.sun.j2me.app-descriptor")
    ∷ (".jam", "application/x-jam")
    ∷ (".jar", "application/java-archive")
    ∷ (".java", "text/plain")
    ∷ (".jfif", "image/pipeg")
    ∷ (".jnlp", "application/x-java-jnlp-file")
    ∷ (".jpe", "image/jpeg")
    ∷ (".jpeg", "image/jpeg")
    ∷ (".jpg", "image/jpeg")
    ∷ (".jpz", "image/jpeg")
    ∷ (".js", "application/x-javascript")
    ∷ (".jwc", "application/jwc")
    ∷ (".kjx", "application/x-kjx")
    ∷ (".lak", "x-lml/x-lak")
    ∷ (".latex", "application/x-latex")
    ∷ (".lcc", "application/fastman")
    ∷ (".lcl", "application/x-digitalloca")
    ∷ (".lcr", "application/x-digitalloca")
    ∷ (".lgh", "application/lgh")
    ∷ (".lha", "application/octet-stream")
    ∷ (".lml", "x-lml/x-lml")
    ∷ (".lmlpack", "x-lml/x-lmlpack")
    ∷ (".log", "text/plain")
    ∷ (".lsf", "video/x-la-asf")
    ∷ (".lsx", "video/x-la-asf")
    ∷ (".lzh", "application/octet-stream")
    ∷ (".m13", "application/x-msmediaview")
    ∷ (".m14", "application/x-msmediaview")
    ∷ (".m15", "audio/x-mod")
    ∷ (".m3u", "audio/x-mpegurl")
    ∷ (".m3url", "audio/x-mpegurl")
    ∷ (".m4a", "audio/mp4a-latm")
    ∷ (".m4b", "audio/mp4a-latm")
    ∷ (".m4p", "audio/mp4a-latm")
    ∷ (".m4u", "video/vnd.mpegurl")
    ∷ (".m4v", "video/x-m4v")
    ∷ (".ma1", "audio/ma1")
    ∷ (".ma2", "audio/ma2")
    ∷ (".ma3", "audio/ma3")
    ∷ (".ma5", "audio/ma5")
    ∷ (".man", "application/x-troff-man")
    ∷ (".map", "magnus-internal/imagemap")
    ∷ (".mbd", "application/mbedlet")
    ∷ (".mct", "application/x-mascot")
    ∷ (".mdb", "application/x-msaccess")
    ∷ (".mdz", "audio/x-mod")
    ∷ (".me", "application/x-troff-me")
    ∷ (".mel", "text/x-vmel")
    ∷ (".mht", "message/rfc822")
    ∷ (".mhtml", "message/rfc822")
    ∷ (".mi", "application/x-mif")
    ∷ (".mid", "audio/mid")
    ∷ (".midi", "audio/midi")
    ∷ (".mif", "application/x-mif")
    ∷ (".mil", "image/x-cals")
    ∷ (".mio", "audio/x-mio")
    ∷ (".mmf", "application/x-skt-lbs")
    ∷ (".mng", "video/x-mng")
    ∷ (".mny", "application/x-msmoney")
    ∷ (".moc", "application/x-mocha")
    ∷ (".mocha", "application/x-mocha")
    ∷ (".mod", "audio/x-mod")
    ∷ (".mof", "application/x-yumekara")
    ∷ (".mol", "chemical/x-mdl-molfile")
    ∷ (".mop", "chemical/x-mopac-input")
    ∷ (".mov", "video/quicktime")
    ∷ (".movie", "video/x-sgi-movie")
    ∷ (".mp2", "video/mpeg")
    ∷ (".mp3", "audio/mpeg")
    ∷ (".mp4", "video/mp4")
    ∷ (".mpa", "video/mpeg")
    ∷ (".mpc", "application/vnd.mpohun.certificate")
    ∷ (".mpe", "video/mpeg")
    ∷ (".mpeg", "video/mpeg")
    ∷ (".mpg", "video/mpeg")
    ∷ (".mpg4", "video/mp4")
    ∷ (".mpga", "audio/mpeg")
    ∷ (".mpn", "application/vnd.mophun.application")
    ∷ (".mpp", "application/vnd.ms-project")
    ∷ (".mps", "application/x-mapserver")
    ∷ (".mpv2", "video/mpeg")
    ∷ (".mrl", "text/x-mrml")
    ∷ (".mrm", "application/x-mrm")
    ∷ (".ms", "application/x-troff-ms")
    ∷ (".msg", "application/vnd.ms-outlook")
    ∷ (".mts", "application/metastream")
    ∷ (".mtx", "application/metastream")
    ∷ (".mtz", "application/metastream")
    ∷ (".mvb", "application/x-msmediaview")
    ∷ (".mzv", "application/metastream")
    ∷ (".nar", "application/zip")
    ∷ (".nbmp", "image/nbmp")
    ∷ (".nc", "application/x-netcdf")
    ∷ (".ndb", "x-lml/x-ndb")
    ∷ (".ndwn", "application/ndwn")
    ∷ (".nif", "application/x-nif")
    ∷ (".nmz", "application/x-scream")
    ∷ (".nokia-op-logo", "image/vnd.nok-oplogo-color")
    ∷ (".npx", "application/x-netfpx")
    ∷ (".nsnd", "audio/nsnd")
    ∷ (".nva", "application/x-neva1")
    ∷ (".nws", "message/rfc822")
    ∷ (".oda", "application/oda")
    ∷ (".ogg", "audio/ogg")
    ∷ (".oom", "application/x-AtlasMate-Plugin")
    ∷ (".p10", "application/pkcs10")
    ∷ (".p12", "application/x-pkcs12")
    ∷ (".p7b", "application/x-pkcs7-certificates")
    ∷ (".p7c", "application/x-pkcs7-mime")
    ∷ (".p7m", "application/x-pkcs7-mime")
    ∷ (".p7r", "application/x-pkcs7-certreqresp")
    ∷ (".p7s", "application/x-pkcs7-signature")
    ∷ (".pac", "audio/x-pac")
    ∷ (".pae", "audio/x-epac")
    ∷ (".pan", "application/x-pan")
    ∷ (".pbm", "image/x-portable-bitmap")
    ∷ []

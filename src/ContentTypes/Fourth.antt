-- ===== src/ContentTypes/Fourth.antt =====
-- Lines 390 to 498 of node/contentType.go.
use de_oss.Base.{String, List, [], ◌∷◌}

abbrev pub fourth_types : List (String × String)
fourth_types =
    (".texinfo", "application/x-texinfo")
    ∷ (".tgz", "application/x-compressed")
    ∷ (".thm", "application/vnd.eri.thm")
    ∷ (".tif", "image/tiff")
    ∷ (".tiff", "image/tiff")
    ∷ (".tki", "application/x-tkined")
    ∷ (".tkined", "application/x-tkined")
    ∷ (".toc", "application/toc")
    ∷ (".toy", "image/toy")
    ∷ (".tr", "application/x-troff")
    ∷ (".trk", "x-lml/x-gps")
    ∷ (".trm", "application/x-msterminal")
    ∷ (".tsi", "audio/tsplayer")
    ∷ (".tsp", "application/dsptype")
    ∷ (".tsv", "text/tab-separated-values")
    ∷ (".ttf", "application/octet-stream")
    ∷ (".ttz", "application/t-time")
    ∷ (".txt", "text/plain")
    ∷ (".uls", "text/iuls")
    ∷ (".ult", "audio/x-mod")
    ∷ (".ustar", "application/x-ustar")
    ∷ (".uu", "application/x-uuencode")
    ∷ (".uue", "application/x-uuencode")
    ∷ (".vcd", "application/x-cdlink")
    ∷ (".vcf", "text/x-vcard")
    ∷ (".vdo", "video/vdo")
    ∷ (".vib", "audio/vib")
    ∷ (".viv", "video/vivo")
    ∷ (".vivo", "video/vivo")
    ∷ (".vmd", "application/vocaltec-media-desc")
    ∷ (".vmf", "application/vocaltec-media-file")
    ∷ (".vmi", "application/x-dreamcast-vms-info")
    ∷ (".vms", "application/x-dreamcast-vms")
    ∷ (".vox", "audio/voxware")
    ∷ (".vqe", "audio/x-twinvq-plugin")
    ∷ (".vqf", "audio/x-twinvq")
    ∷ (".vql", "audio/x-twinvq")
    ∷ (".vre", "x-world/x-vream")
    ∷ (".vrml", "x-world/x-vrml")
    ∷ (".vrt", "x-world/x-vrt")
    ∷ (".vrw", "x-world/x-vream")
    ∷ (".vts", "workbook/formulaone")
    ∷ (".wav", "audio/x-wav")
    ∷ (".wax", "audio/x-ms-wax")
    ∷ (".wbmp", "image/vnd.wap.wbmp")
    ∷ (".wcm", "application/vnd.ms-works")
    ∷ (".wdb", "application/vnd.ms-works")
    ∷ (".web", "application/vnd.xara")
    ∷ (".wi", "image/wavelet")
    ∷ (".wis", "application/x-InstallShield")
    ∷ (".wks", "application/vnd.ms-works")
    ∷ (".wm", "video/x-ms-wm")
    ∷ (".wma", "audio/x-ms-wma")
    ∷ (".wmd", "application/x-ms-wmd")
    ∷ (".wmf", "application/x-msmetafile")
    ∷ (".wml", "text/vnd.wap.wml")
    ∷ (".wmlc", "application/vnd.wap.wmlc")
    ∷ (".wmls", "text/vnd.wap.wmlscript")
    ∷ (".wmlsc", "application/vnd.wap.wmlscriptc")
    ∷ (".wmlscript", "text/vnd.wap.wmlscript")
    ∷ (".wmv", "audio/x-ms-wmv")
    ∷ (".wmx", "video/x-ms-wmx")
    ∷ (".wmz", "application/x-ms-wmz")
    ∷ (".wpng", "image/x-up-wpng")
    ∷ (".wps", "application/vnd.ms-works")
    ∷ (".wpt", "x-lml/x-gps")
    ∷ (".wri", "application/x-mswrite")
    ∷ (".wrl", "x-world/x-vrml")
    ∷ (".wrz", "x-world/x-vrml")
    ∷ (".ws", "text/vnd.wap.wmlscript")
    ∷ (".wsc", "application/vnd.wap.wmlscriptc")
    ∷ (".wv", "video/wavelet")
    ∷ (".wvx", "video/x-ms-wvx")
    ∷ (".wxl", "application/x-wxl")
    ∷ (".x-gzip", "application/x-gzip")
    ∷ (".xaf", "x-world/x-vrml")
    ∷ (".xar", "application/vnd.xara")
    ∷ (".xbm", "image/x-xbitmap")
    ∷ (".xdm", "application/x-xdma")
    ∷ (".xdma", "application/x-xdma")
    ∷ (".xdw", "application/vnd.fujixerox.docuworks")
    ∷ (".xht", "application/xhtml+xml")
    ∷ (".xhtm", "application/xhtml+xml")
    ∷ (".xhtml", "application/xhtml+xml")
    ∷ (".xla", "application/vnd.ms-excel")
    ∷ (".xlc", "application/vnd.ms-excel")
    ∷ (".xll", "application/x-excel")
    ∷ (".xlm", "application/vnd.ms-excel")
    ∷ (".xls", "application/vnd.ms-excel")
    ∷ (".xlsx", "application/vnd.openxmlformats-officedocument.spreadsheetml.sheet")
    ∷ (".xlt", "application/vnd.ms-excel")
    ∷ (".xlw", "application/vnd.ms-excel")
    ∷ (".xm", "audio/x-mod")
    ∷ (".xml", "text/plain")
    ∷ (".xml", "application/xml")
    ∷ (".xmz", "audio/x-mod")
    ∷ (".xof", "x-world/x-vrml")
    ∷ (".xpi", "application/x-xpinstall")
    ∷ (".xpm", "image/x-xpixmap")
    ∷ (".xsit", "text/xml")
    ∷ (".xsl", "text/xml")
    ∷ (".xul", "text/xul")
    ∷ (".xwd", "image/x-xwindowdump")
    ∷ (".xyz", "chemical/x-pdb")
    ∷ (".yz1", "application/x-yz1")
    ∷ (".z", "application/x-compress")
    ∷ (".zac", "application/x-zaurus-zac")
    ∷ (".zip", "application/zip")
    ∷ (".json", "application/json")
    ∷ []

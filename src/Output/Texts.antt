-- ===== src/Output/Texts.antt =====
-- The fixed texts of the report in output.cpp. A literal that is too long for a line is written in
-- pieces, and the accented letter as its two bytes of UTF-8.
use storing_devices_logs_tfm.Base.{Bytes, [], ◌∷◌, ◌++◌, text}

abbrev pub start_html : Bytes
start_html =
    text "<!DOCTYPE html><html><style>table{font-family: arial, sans-serif;border-collapse"
    ++ (text ": collapse;width: 60%;table-layout: fixed;background-color:#e7e7e7;}td,th{border"
        ++ (text ": 1px solid #dddddd;text-align: center;padding: 8px;width: 50%;}</style><body st"
            ++ (text
                  "yle=\"background-color:#a2b9c2\"><h1 style=\"text-align:center\">Storing devices"
                ++ (text
                      " report</h1><br><p style=\"text-align: center;\">Report auto-generated with info"
                    ++ (text
                          "rmation about USBs connected to this computer since startup, including times whe"
                        ++ (text
                              "n they were connected and disconnected, if that is the case. The information fro"
                            ++ (text
                                  "m this devices is gathered from Linux event logs.</p><p style=\"text-align: cent"
                                ++ (text
                                      "er;\">It also displays information about the hard drives connected to the comput"
                                    ++ (text
                                          "er, getting the information of these with ioctl Linux tool.</p><br><br><br><br><"
                                        ++ text
                                            "br><h2 style=\"text-align:center\">USBs</h2>")))))))))

abbrev pub before_hard_disks : Bytes
before_hard_disks = text "<br><br><br><h2 style=\"text-align:center\">Hard drives</h2>"

abbrev pub end_html : Bytes
end_html =
    text "<br><br><br><p style=\"text-align: right;\">Report generated by Storing Devices "
    ++ (text "identifiers gathering tool developed by Jose Miguel S"
        ++ ((195 ∷ 161 ∷ [])
            ++ (text
                  "nchez Almagro, as part of Storing devices information gathering Master's thesis."
                ++ text "</p></body></html>")))

abbrev pub times_table : Bytes
times_table =
    text "<p style=\"text-align: center;\">Connection and disconnection times in different"
    ++ (text " time zones:</p><table align=\"center\"><tr><th colspan=\"2\" style=\"background"
        ++ (text "-color:#dadada\">Local time</th><th colspan=\"2\" style=\"background-color:#dada"
            ++ (text
                  "da\">UTC</th><th colspan=\"2\" style=\"background-color:#dadada\">EST</th></tr><"
                ++ (text
                      "tr><th style=\"background-color:#dadada\"><b>Conections</b></th><th style=\"back"
                    ++ (text
                          "ground-color:#dadada\"><b>Disconnections</b></th><th style=\"background-color:#d"
                        ++ (text
                              "adada\"><b>Conections</b></th><th style=\"background-color:#dadada\"><b>Disconne"
                            ++ (text
                                  "ctions</b></th><th style=\"background-color:#dadada\"><b>Conections</b></th><th "
                                ++ text
                                    "style=\"background-color:#dadada\"><b>Disconnections</b></th></tr>")))))))

abbrev pub times_end : Bytes
times_end = text "</table><br><br><br><br>"

-- ===== src/Db/Migration/Script.antt =====
-- src/sql/migration1.sql, as the program includes it.
use castella.Prelude.{◌++◌}
use castella.Text.{Text, codes}

unfoldable pub drives_sql : Text
drives_sql =
    codes "-- Shared drive information\n"
    ++ (codes "create table drives (\n"
        ++ (codes "  key           serial      primary key\n"
            ++ (codes "  -- Drive API shared drive resource ID.\n"
                ++ (codes ", id            text        not null unique\n"
                    ++ (codes "  -- Time of drive creation.\n"
                        ++ (codes
                              ", created_time  timestamp   not null default (timezone('utc', now()))\n"
                            ++ (codes ");\n"
                                ++ (codes "\n"
                                    ++ (codes "create index ix_drives_id on drives (id);\n"
                                        ++ (codes
                                              "create index ix_drives_created_time on drives (created_time);\n"
                                            ++ (codes "\n"
                                                ++ (codes "-- File information\n"))))))))))))

unfoldable pub files_sql : Text
files_sql =
    codes "create table files (\n"
    ++ (codes "  key           serial      primary key\n"
        ++ (codes "  -- Drive API file resource ID.\n"
            ++ (codes ", id            text        not null unique\n"
                ++ (codes "  -- Key of the containing drive.\n"
                    ++ (codes
                          ", drive_key     integer     not null references drives on delete cascade\n"
                        ++ (codes "  -- Original size before encryption.\n"
                            ++ (codes ", size          bigint      not null\n"
                                ++ (codes "  -- File content type.\n"
                                    ++ (codes ", content_type  text        not null\n"
                                        ++ (codes "  -- Time of file creation.\n"
                                            ++ (codes
                                                  ", created_time  timestamp   not null default (timezone('utc', now()))\n"
                                                ++ (codes "  -- Time of last file access.\n"
                                                    ++ (codes
                                                          ", accessed_time timestamp   not null default (timezone('utc', now()))\n"
                                                        ++ (codes
                                                            "  -- Encrypted file secret for decryption.\n"
                                                            ++ (codes
                                                            ", secret        bytea       not null\n"
                                                            ++ (codes ");\n"
                                                            ++ (codes "\n"
                                                            ++ (codes
                                                            "create index ix_files_id on files (id);\n"
                                                            ++ (codes
                                                            "create index ix_files_drive_key on files (drive_key);\n"
                                                            ++ (codes
                                                            "create index ix_files_size on files (size);\n"
                                                            ++ (codes
                                                            "create index ix_files_content_type on files (content_type);\n"
                                                            ++ (codes
                                                            "create index ix_files_created_time on files (created_time);\n"
                                                            ++ (codes
                                                            "create index ix_files_accessed_time on files (accessed_time);\n")))))))))))))))))))))))

unfoldable pub migration1 : Text
unfolding drives_sql files_sql
migration1 = drives_sql ++ files_sql

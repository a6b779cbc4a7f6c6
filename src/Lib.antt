-- ===== src/Lib.antt =====
-- A model of the core of SecProGIS-LibClient, the client that seals map files for the members of an
-- archive: it enciphers a file with SM4, marks it with SM3 digests, and keeps its key in a MySQL
-- table. All paths below are in SecProGIS-LibClient/Archive of the repository.
--
-- How the parts work together. The window of ArchiveDlg.cpp reads a file, asks KM.cpp for a fresh key
-- with an expiry time, and writes the sealed file piece by piece with the functions of sm4.cpp and
-- sm3.cpp. KM.cpp keeps its strings as the words of BWord.cpp, and reaches the database through
-- INTmysql.cpp, which collects answers in the tables of DBTable.cpp.
--
-- The files:
--   Base        shared names: Boolean tests, lists as C arrays, machine words, `int` as ℤ
--   Bits        laws of `^` and `|` on numbers
--   Endian      GET_ULONG_BE, PUT_ULONG_BE and ROTL of sm4.cpp and sm3.cpp
--   Sm4         sm4.cpp. `sm4_setkey` is `setkey`, `sm4_one_round` is `one_round`; Sm4/Modes has
--               `sm_crypt_ecb_16` as `crypt_ecb_16` and `sm4_crypt_cbc` as `crypt_cbc`. Sm4/Keys is
--               about the schedules, Sm4/Round and Sm4/Cipher about one block; Sm4/Early is
--               encrypt.cpp
--   Sm3         sm3.cpp. `sm3_update` is `update`, `sm3_finish` is `finish`; Sm3/Compress has
--               `sm3_process`, Sm3/Hmac the HMAC. Sm3/Absorb, Sm3/Stream and Sm3/Digest compare
--               the stream with the hash of the whole message
--   Hex         `sprint_hex` of BWord.cpp and the loop of `KM_SERV::restore` that reads it
--   Word        `BASE_WORD` of BWord.cpp; Word/Value says which string a word stands for
--   Table       `T_ROW` and `_TABLE` of DBTable.cpp; Table/Order is about the order of the rows
--   Query       `MY_QUERY` of INTmysql.cpp; Query/Handles is about what it returns and leaves open
--   Km          `KM_SK::generate` and the expiry of `KM_SERV` in KM.cpp; Km/Restore is `restore`,
--               Km/Store is `store`
--   Text        C strings out of the cells of a table, `strcmp`, `sprintf_s` and `_ttoi`
--   Login       `CheckAdmin` of LoginDlg.cpp once the settings are there; Login/Settings has
--               `LinkDataBase` and the whole of `CheckAdmin`
--   View        `AddEncList` of ViewDlg.cpp
--   Combo       `AutoSelect` and `AutoMatchAndSel` of AutoCombox1.cpp; Combo/Box has the operations
--               that change its entries
--   Trial       the trial period in `InitInstance` of Archive.cpp; Trial/Start is `InitInstance` up to the
--               main window
--   Paths       the loops over paths in ArchiveDlg.cpp and LoginDlg.cpp
--   Archive     ArchiveDlg.cpp: Archive/Sealing is the sealing of one file in `OnEncryptFile`,
--               Archive/Guards is `JudgeBeforeEncrypt`. Archive/Batch is the loop of `OnEncryptFile` with the database: `seal_one` up to the sealed file,
--               `register_one` from `store` to the end of a round. Archive/Dialog has the handlers as
--               steps on the members of `CArchiveDlg`, and `OnEncryptFile` from its guards on;
--               Archive/Units is `AddOrgCombMenu`
-- The Examples below a part hold its tests and the runs of its theorems on concrete inputs.
--
-- State and memory. A context is a record with the fields of the struct. An array or a buffer is a
-- list; a function that writes to one returns the new list. A pointer that may be null is an Option.
-- `u32` is `unsigned long`, 32 bits wide with the compiler that the project file names, and its
-- arithmetic is cut with `% 2 ^ 32`. A read or a write outside a buffer gives `none` in Sm4/Modes and
-- Archive, where lengths come from the caller; elsewhere the theorems have the sizes as hypotheses.
-- A length that is an `int` is below 2 ^ 31 by hypothesis where the source converts to `int`.
--
-- Loops. A loop with a fixed number of rounds recurs on it. The loops over buffers recur on fuel: the
-- number of bytes for `sm4_crypt_ecb`, `sm4_crypt_cbc` and `sm3_update`, one more than the number of
-- bytes for `OnEncryptFile`. Each round takes at least one byte, so it is enough, and the theorems
-- show that the result is there.
--
-- Parameters. `Files` of Archive/Files stands for the class CFile, with its documented behaviour as
-- laws on bytes and position; that the system refuses to create or write a file is the field `writable`
-- of Archive/Batch. `Client` of Query stands for the MySQL client library and the server, the code page
-- of the machine (`WideCharToMultiByte`, in the statements of Archive) and the numbers of `rand` after a
-- seed, with no law. The callers of `exec_query_table` are modelled for runs in which
-- `mysql_store_result` gives a result; `run_query_table` has the other case too. MD5 in Login and
-- `CString::Find` in Combo are functions. `fread` and `ferror` are the constructor `opened` of Sm3,
-- the clock is an argument in Km. `same_path` of Archive/Batch says which paths the system takes for
-- one file, `profile` of Login/Settings what the settings file holds, `place` of Combo how the list box
-- orders its entries, and two functions in View how a time is written.
--
-- Not modelled: the windows, progress bars and debug prints; `OnDecryptFile`, which opens a path that
-- nothing sets and so never has a sealed file open; ListCtrlSort.h, base64.cpp, AdvHeaderCtrl.cpp,
-- cJSON, deelx, OpenSSL and the MySQL headers, which are other projects' code.
pub mod Base
pub mod Bits
pub mod Endian
pub mod Sm4
pub mod Sm3
pub mod Hex
pub mod Word
pub mod Table
pub mod Query
pub mod Km
pub mod Text
pub mod Login
pub mod Combo
pub mod Trial
pub mod Paths
pub mod Archive
pub mod View

-- ===== src/Server/Connect.antt =====
-- The start of CMySqlTask::DoTask (StudentManagementServer/CMySqlTask.cpp): the configuration and the
-- connection to the database.
pub mod Refused
use school_information_manag.Prelude.{
  ℕ, Bool, true, false, Option, none, some, List, [], Bytes, codes, ℤ,
}
use school_information_manag.Listing.{c_str}
use school_information_manag.Text.{atoi}
use school_information_manag.Server.State.{MySql, Machine, End, Task}
use school_information_manag.Server.Loop.{do_task}

-- `GetPrivateProfileStringA`: what it leaves in the buffer for a section, a key, a default, the
-- buffer's size and a file.
abbrev pub Profile : Type 0
Profile = Bytes → Bytes → Bytes → ℕ → Bytes → Bytes

-- `GetIniValue`
unfoldable pub get_ini_value : Profile → Bytes → Bytes → Bytes → Bytes
get_ini_value profile section key path = c_str (profile section key [] 1024 path)

-- The calls of the MySQL library that make a connection: `mysql_library_init` without an error,
-- `mysql_init`, `mysql_options` for the character set, and `mysql_real_connect` with host, user,
-- password, database and port, which is false for NULL.
pub record Connector (m : MySql) : Type 0 where
  pub library_init : Bool
  pub mysql_init : m.Conn
  pub set_charset : Bytes → m.Conn → m.Conn
  pub real_connect : Bytes → Bytes → Bytes → Bytes → ℤ → m.Conn → Bool × m.Conn

abbrev pub config_file : Bytes
config_file = codes "./config.ini"

-- `GetIniValue("Database", key, configFile)`
abbrev pub setting : Profile → Bytes → Bytes
setting profile key = get_ini_value profile (codes "Database") key config_file

-- `ConnectMySQL`: `none` is `exit(1)`; otherwise whether it connected, which its caller is not told,
-- and the connection.
unfoldable pub connect_mysql : {m : MySql} → Profile → Connector m → Option (Bool × m.Conn)
connect_mysql profile c =
    let conn = c.set_charset (codes "gbk") c.mysql_init in
    elim c.library_init [
      | false ↦ none
      | true ↦ some (
          c.real_connect (setting profile (codes "Host")) (setting profile (codes "User"))
            (setting profile (codes "Password")) (setting profile (codes "DBName"))
            (atoi (setting profile (codes "Port"))) (c.set_charset (codes "gbk") conn))
    ]

-- How DoTask as a whole ends: with the whole process, or as its loops do.
pub data TaskEnd (m : MySql) : Type 0 where
  exits : TaskEnd m
  runs : Option (End × Task m) → TaskEnd m

-- DoTask from its first line, with fuel for its two loops; `t` is the task but for its connection.
unfoldable pub run_task : {m : MySql} → Machine → Profile → Connector m → ℕ → ℕ → Task m → TaskEnd m
run_task env profile c fuel rest t = elim (connect_mysql profile c) [
  | none ↦ exits
  | some (ok, conn) ↦ runs (do_task env fuel rest (record t { conn = conn }))
]

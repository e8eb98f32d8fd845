-- ===== src/Client.antt =====
-- The client's side of the service: what internal/fs/fs.go and cmd/pulumi/main.go call. Any client
-- will do, also one whose requests are lost; `served` is the one whose requests the server answers.
use configfs.Prelude.{List, Option}
use configfs.Strings.{Text}
use configfs.Proto.{Config, Directory, Tree}
use configfs.Exec.{Exec}
use configfs.Store.Db.{World}
use configfs.Api.Server.{Server, Code}
use configfs.Api.Handlers.{
  list_rpc, get_config_rpc, set_config_rpc, delete_config_rpc, create_directory_rpc,
  get_directory_rpc, update_directory_rpc, delete_directory_rpc,
}

-- ConfigFSServerClient; `R` is the state of the other side
pub record Client (R : Type 0) : Type 0 where
  pub list : Text → Exec R Code (Option Tree)
  pub get_config : Text → Option Text → Exec R Code Config
  pub set_config : Option Config → Exec R Code (Option Config)
  pub delete_config : Text → Exec R Code (Unit {0})
  pub create_directory : Option Directory → Exec R Code (Option Directory)
  pub get_directory : Text → Exec R Code Directory
  pub update_directory : Option Directory → Exec R Code (Option Directory)
  pub delete_directory : Text → Exec R Code (Unit {0})

-- The requests of a caller with these tags, answered by the handlers.
abbrev pub served : Server → List Text → Client World
served s tags = record {
  list = list_rpc tags;
  get_config = get_config_rpc tags;
  set_config = set_config_rpc s tags;
  delete_config = delete_config_rpc tags;
  create_directory = create_directory_rpc s tags;
  get_directory = get_directory_rpc tags;
  update_directory = update_directory_rpc tags;
  delete_directory = delete_directory_rpc tags;
}

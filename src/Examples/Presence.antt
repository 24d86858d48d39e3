-- ===== src/Examples/Presence.antt =====
-- The list of devices while a stream of one is open.
use deploy_os.Base.{◌≡◌, refl, List, [], ◌∷◌}
use deploy_os.Auth.{User, success, IsCaller}
use deploy_os.Devices.Handler.{ListedDevice, list_devices}
use deploy_os.Devices.Table.{repository, list_by_user}
use deploy_os.Connection.Manager.{is_connected}
use deploy_os.Connection.Server.{Event, new_server, run, step, opens, tracks, responds}
use deploy_os.Fleet.Presence.{AreShown, list_devices-IsShown}
use deploy_os.Examples.Devices.{directory, table}

abbrev online : List Event
online = opens "d-1" "u-1" "s-1" ∷ tracks 0 10 ∷ responds 0 ∷ []

abbrev shown : ListedDevice
shown = record {
  id = "d-1";
  hostname = "box";
  operating_system = "linux";
  architecture = "amd64";
  status = "connected";
  created_at = 5;
}

listed_connected :
    list_devices repository
      (λ id. is_connected id (run online new_server).manager)
      directory
      "Bearer ann"
      table
    ≡ success 200 (shown ∷ [])
unfolding list_devices list_by_user is_connected deploy_os.Go.Map.lookup run step new_server
    deploy_os.Connection.Manager.add deploy_os.Go.Map.insert
    deploy_os.Connection.Manager.new_manager
listed_connected = refl

list_devices-IsShown_example :
    (user : User) × IsCaller directory "Bearer ann" user
    × AreShown user table (run online new_server) (shown ∷ [])
list_devices-IsShown_example =
    list_devices-IsShown directory table "Bearer ann" online 200 (shown ∷ []) listed_connected

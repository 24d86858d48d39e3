-- ===== src/Fleet/Network/Owners.antt =====
-- internal/commandbus/handler.go in front of the network: whose commands the devices receive.
use deploy_os.Base.{String, ◌≡◌, Option, none}
use deploy_os.Go.Errors.{Result}
use deploy_os.Auth.{User}
use deploy_os.Devices.Service.{is_owner}
use deploy_os.Devices.Table.{Database, repository}
use deploy_os.Devices.Table.Owner.{IsTable}
use deploy_os.CommandBus.Wire.{Request}
use deploy_os.CommandBus.Dispatcher.{Dispatcher}
use deploy_os.CommandBus.Handler.{SendCommandRequest, send, plan}
use deploy_os.Fleet.Network.{Network}

-- An HTTP request on which the handler calls Service.Send, over the table as it was then.
pub record IsAsked (authenticate : String → Result User) (to : String) (req : Request)
    : Type 0 where
  pub header : String
  pub device_id : String
  pub body : Option SendCommandRequest
  pub db : Database
  pub table : IsTable db
  pub in_reach : db.failure ≡ none
  pub planned :
      plan authenticate (λ user_id id. is_owner repository user_id id db) header device_id body
      ≡ send to req

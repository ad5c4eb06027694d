-- ===== src/Secret/Key.antt =====
-- The keys of a secret (pkg/apis/cloudprovider/cloudprovider.go).
use machine_controller_manag.Base.{String}

abbrev pub auth_url : String
auth_url = "authURL"

abbrev pub ca_cert : String
ca_cert = "caCert"

abbrev pub insecure : String
insecure = "insecure"

abbrev pub domain_name : String
domain_name = "domainName"

abbrev pub domain_id : String
domain_id = "domainID"

abbrev pub tenant_name : String
tenant_name = "tenantName"

abbrev pub tenant_id : String
tenant_id = "tenantID"

abbrev pub user_domain_name : String
user_domain_name = "userDomainName"

abbrev pub user_domain_id : String
user_domain_id = "userDomainID"

abbrev pub username : String
username = "username"

abbrev pub password : String
password = "password"

abbrev pub client_cert : String
client_cert = "clientCert"

abbrev pub client_key : String
client_key = "clientKey"

abbrev pub user_data : String
user_data = "userData"

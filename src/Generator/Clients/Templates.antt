-- ===== src/Generator/Clients/Templates.antt =====
-- The texts that main.cpp prints. The names between dollar signs are the variables.
use platform_external_nos_ho.Generator.Text.{String}

abbrev pub open_namespace : String
open_namespace = "\nnamespace $namespace$ {"

abbrev pub close_namespace : String
close_namespace = "\n} // namespace $namespace$"

abbrev pub mock_head : String
mock_head =
    "\n#ifndef $include_guard$\n#define $include_guard$\n\n#include <gmock/gmock.h>\n\n#include <$service_header$>"

abbrev pub mock_open : String
mock_open = "\nstruct $mock_class$ : public I$class$ {"

abbrev pub mock_method : String
mock_method =
    "\n    MOCK_METHOD2($method_name$, uint32_t(const $method_input_type$&, $method_output_type$*));"

abbrev pub mock_close : String
mock_close = "\n};"

abbrev pub mock_end : String
mock_end = "\n#endif"

abbrev pub header_head : String
header_head =
    "\n#ifndef $include_guard$\n#define $include_guard$\n\n#include <application.h>\n#include <nos/AppClient.h>\n#include <nos/NuggetClientInterface.h>\n\n#include \"$protobuf_header$\""

abbrev pub iface_open : String
iface_open = "\nclass $iface_class$ {\npublic:\n    virtual ~$iface_class$() = default;"

abbrev pub iface_method : String
iface_method =
    "\n    virtual uint32_t $method_name$(const $method_input_type$&, $method_output_type$*) = 0;"

abbrev pub iface_close : String
iface_close = "\n};"

abbrev pub class_open : String
class_open =
    "\nclass $class$ : public $iface_class$ {\n    ::nos::AppClient _app;\npublic:\n    $class$(::nos::NuggetClientInterface& client) : _app{client, $app_id$} {}\n    ~$class$() override = default;"

abbrev pub class_method : String
class_method =
    "\n    uint32_t $method_name$(const $method_input_type$&, $method_output_type$*) override;"

abbrev pub class_close : String
class_close = "\n};"

abbrev pub header_end : String
header_end = "\n#endif"

abbrev pub source_head : String
source_head = "\n#include <$generated_header$>\n\n#include <application.h>"

abbrev pub source_method : String
source_method =
    "\nuint32_t $class$::$method_name$(const $method_input_type$& request, $method_output_type$* response) {\n    const size_t request_size = request.ByteSizeLong();\n    if (request_size > $max_request_size$) {\n        return APP_ERROR_TOO_MUCH;\n    }\n    std::vector<uint8_t> buffer(request_size);\n    if (!request.SerializeToArray(buffer.data(), buffer.size())) {\n        return APP_ERROR_RPC;\n    }\n    std::vector<uint8_t> responseBuffer;\n    if (response != nullptr) {\n      responseBuffer.resize($max_response_size$);\n    }\n    const uint32_t appStatus = _app.Call($method_id$, buffer,\n                                         (response != nullptr) ? &responseBuffer : nullptr);\n    if (appStatus == APP_SUCCESS && response != nullptr) {\n        if (!response->ParseFromArray(responseBuffer.data(), responseBuffer.size())) {\n            return APP_ERROR_RPC;\n        }\n    }\n    return appStatus;\n}"
